-- ===== src/Protocol/Paths.antt =====
-- The choice of a path by its metrics in aodv-routing-protocol.cc: `SelectBestPathByMetrics` and
-- `PreemptiveRouteSwitch`, and the node's own metrics.
use fp_jaringan_nirkabel.Base.{
  ℕ, ltb, ◌==◌, not, ◌&&◌, Bool, false, none, some, List, [], ◌∷◌, if◌then◌else◌, negsuc, length,
}
use fp_jaringan_nirkabel.Net.{Time}
use fp_jaringan_nirkabel.Platform.{Platform}
use fp_jaringan_nirkabel.Metrics.{BleMetrics, WeightFactors, tenths}
use fp_jaringan_nirkabel.Multipath.{PathInfo, default_path, calculate_composite_score}
use fp_jaringan_nirkabel.RoutingTable.Alternatives.{
  get_best_multipath_route, get_all_multipath_routes,
}
use fp_jaringan_nirkabel.Protocol.{Protocol, table_of, with_table}

module _ {D : Type 0} ⦃o : Platform D⦄ where
  open o use {decimal, of_ℕ, lt, add}

  -- The loop over the paths: the first of the best scores above the one so far, with its path.
  unfoldable pub best_scored :
      WeightFactors D → (PathInfo D → Bool) → List (PathInfo D) → D × PathInfo D → D × PathInfo D
  unfolding calculate_composite_score
  best_scored w eligible [] best = best
  best_scored w eligible (path ∷ paths) best =
      let score = calculate_composite_score w path in
      best_scored w eligible paths
        (if eligible path && lt best.0 score then (score, path) else best)

  abbrev pub minus_one : D
  minus_one = decimal (negsuc 9) 1

  unfoldable pub select_best_path_by_metrics :
      Time → WeightFactors D → List (PathInfo D) → PathInfo D
  unfolding best_scored default_path
  select_best_path_by_metrics now w paths =
      let best = best_scored w (λ path. path.is_valid) paths (minus_one, default_path now) in
      if lt best.0 (of_ℕ 0) then default_path now else best.1

  unfoldable pub get_current_node_metrics : Time → Protocol D → BleMetrics D
  get_current_node_metrics now s = record {
    residual_energy = s.residual_energy;
    rssi_value = decimal (negsuc 599) 1;
    stability_score = tenths 8;
    hop_count = 1;
    last_updated = now;
  }

  -- The alternative's score is well above the best path's: the switch that the code logs.
  unfoldable pub is_switch_possible : Time → WeightFactors D → PathInfo D → List (PathInfo D) → Bool
  unfolding best_scored calculate_composite_score default_path
  is_switch_possible now w current paths =
      let best =
        best_scored w (λ path. not (path.next_hop == current.next_hop)) paths
          (minus_one, default_path now) in
      ltb 1 (length paths) && lt (add (calculate_composite_score w current) (tenths 1)) best.0

  unfoldable pub preemptive_route_switch : Time → ℕ → Protocol D → Protocol D × Bool
  unfolding get_best_multipath_route get_all_multipath_routes is_switch_possible
  preemptive_route_switch now dst s =
      let (t, found) = get_best_multipath_route now dst (table_of s) in
      let (t', paths) = get_all_multipath_routes now dst t in
      if s.multipath_enabled
      then elim found [
        | none ↦ (with_table t s, false)
        | some current ↦ (with_table t' s, is_switch_possible now s.current_weights current paths)
      ]
      else (s, false)
