-- ===== src/Multipath.antt =====
-- `MultipathRouteEntry` of aodv-rtable.h and aodv-rtable.cc: the alternative paths to one
-- destination.
pub mod Selection
pub mod Paths
use fp_jaringan_nirkabel.Base.{
  ℕ, ◌+◌, ◌%◌, ◌^◌, ◌==◌, ltb, Bool, true, false, not, Option, none, some, List, [], ◌∷◌, ◌++◌, map,
  if◌then◌else◌, pos, ◌+ℤ◌, leb_ℤ, remove_if, any, length,
}
use fp_jaringan_nirkabel.Net.{Time}
use fp_jaringan_nirkabel.Platform.{Platform, max_double, min_double}
use fp_jaringan_nirkabel.Metrics.{
  BleMetrics, WeightFactors, tenths, default_metrics, default_factors,
}

pub record PathInfo (D : Type 0) : Type 0 where
  pub next_hop : ℕ
  pub hop_count : ℕ
  pub expiry_time : Time
  pub path_quality : D
  pub is_valid : Bool
  pub ble_metrics : BleMetrics D
  pub composite_score : D
  pub last_used : Time
  pub usage_count : ℕ

pub record MultipathRouteEntry (D : Type 0) : Type 0 where
  pub destination : ℕ
  pub paths : List (PathInfo D)

module _ {D : Type 0} ⦃o : Platform D⦄ where
  open o use {decimal, of_ℕ, add, sub, mul, div, lt, default_address}

  -- `PathInfo()`
  unfoldable pub default_path : Time → PathInfo D
  unfolding default_metrics
  default_path now = record {
    next_hop = default_address;
    hop_count = 0;
    expiry_time = pos 0;
    path_quality = tenths 0;
    is_valid = false;
    ble_metrics = default_metrics now;
    composite_score = tenths 0;
    last_used = now;
    usage_count = 0;
  }

  unfoldable pub calculate_composite_score : WeightFactors D → PathInfo D → D
  unfolding max_double min_double
  calculate_composite_score w p =
      let hop_score = div (tenths 10) (add (tenths 10) (of_ℕ p.hop_count)) in
      let rssi = div (add p.ble_metrics.rssi_value (decimal (pos 1000) 1)) (decimal (pos 700) 1) in
      let rssi_score = max_double (tenths 0) (min_double (tenths 10) rssi) in
      add
        (add (add (mul w.hop_weight hop_score) (mul w.energy_weight p.ble_metrics.residual_energy))
          (mul w.rssi_weight rssi_score))
        (mul w.stability_weight p.ble_metrics.stability_score)

  -- The exponential moving average of the transmissions' success; `uint32_t usageCount++`.
  unfoldable pub update_stability_score : Time → Bool → PathInfo D → PathInfo D
  update_stability_score now successful p =
      let factor = tenths 1 in
      let reward = if successful then tenths 10 else tenths 0 in
      let metrics = p.ble_metrics in
      record p {
        ble_metrics = record metrics {
          stability_score =
              add (mul (sub (tenths 10) factor) metrics.stability_score) (mul factor reward);
        };
        usage_count = (p.usage_count + 1) % 2 ^ 32;
        last_used = now;
      }

  unfoldable pub new_entry : ℕ → MultipathRouteEntry D
  new_entry destination = record { destination = destination; paths = [] }

  unfoldable pub is_expired : Time → PathInfo D → Bool
  is_expired now p = leb_ℤ p.expiry_time now

  unfoldable pub has_next_hop : ℕ → PathInfo D → Bool
  has_next_hop next_hop p = p.next_hop == next_hop

  unfoldable pub live_paths : Time → MultipathRouteEntry D → MultipathRouteEntry D
  live_paths now e = record e { paths = remove_if (is_expired now) e.paths }

  unfoldable pub refresh : Time → ℕ → Time → PathInfo D → PathInfo D
  refresh now hop_count lifetime p = record p {
    hop_count = hop_count;
    expiry_time = now +ℤ lifetime;
    is_valid = true;
  }

  -- The loop that changes the first path through a next hop.
  unfoldable pub refresh_first : Time → ℕ → ℕ → Time → List (PathInfo D) → List (PathInfo D)
  unfolding refresh
  refresh_first now next_hop hop_count lifetime [] = []
  refresh_first now next_hop hop_count lifetime (p ∷ ps) =
      if has_next_hop next_hop p
      then refresh now hop_count lifetime p ∷ ps
      else p ∷ refresh_first now next_hop hop_count lifetime ps

  unfoldable pub new_path : Time → ℕ → ℕ → Time → PathInfo D
  unfolding default_path
  new_path now next_hop hop_count lifetime =
      let p = default_path now in
      record p {
        next_hop = next_hop;
        hop_count = hop_count;
        expiry_time = now +ℤ lifetime;
        path_quality = tenths 10;
        is_valid = true;
      }

  -- `AddPath(nextHop, hopCount, lifetime)`
  unfoldable pub add_path : Time → ℕ → ℕ → Time → MultipathRouteEntry D → MultipathRouteEntry D
  unfolding live_paths refresh_first new_path
  add_path now next_hop hop_count lifetime e =
      let e' = live_paths now e in
      if any (has_next_hop next_hop) e'.paths
      then record e' { paths = refresh_first now next_hop hop_count lifetime e'.paths }
      else record e' { paths = e'.paths ++ new_path now next_hop hop_count lifetime ∷ [] }

  -- `AddPath(pathInfo)`
  unfoldable pub add_path_info : PathInfo D → MultipathRouteEntry D → MultipathRouteEntry D
  add_path_info p e = record e { paths = e.paths ++ p ∷ [] }

  unfoldable pub remove_path : ℕ → MultipathRouteEntry D → MultipathRouteEntry D
  remove_path next_hop e = record e { paths = remove_if (has_next_hop next_hop) e.paths }

  -- `std::min_element` by hop count: the first of the smallest.
  unfoldable pub min_element : PathInfo D → List (PathInfo D) → PathInfo D
  min_element best [] = best
  min_element best (p ∷ ps) = min_element (if ltb p.hop_count best.hop_count then p else best) ps

  unfoldable pub rate : WeightFactors D → PathInfo D → PathInfo D
  rate w p = record p { composite_score = calculate_composite_score w p }

  unfoldable pub best_of : Time → List (PathInfo D) → PathInfo D
  best_of now [] = default_path now
  best_of now (p ∷ ps) = min_element p ps

  unfoldable pub get_best_path : Time → MultipathRouteEntry D → MultipathRouteEntry D × PathInfo D
  unfolding live_paths
  get_best_path now e =
      let e' = live_paths now e in
      let rated = map (rate default_factors) e'.paths in
      (record e' { paths = rated }, best_of now rated)

  unfoldable pub get_all_paths :
      Time → MultipathRouteEntry D → MultipathRouteEntry D × List (PathInfo D)
  unfolding live_paths
  get_all_paths now e = let e' = live_paths now e in (e', e'.paths)

  unfoldable pub is_empty : List (PathInfo D) → Bool
  is_empty [] = true
  is_empty (p ∷ ps) = false

  unfoldable pub has_valid_path : Time → MultipathRouteEntry D → MultipathRouteEntry D × Bool
  unfolding live_paths is_empty
  has_valid_path now e = let e' = live_paths now e in (e', not (is_empty e'.paths))
