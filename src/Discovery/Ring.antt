-- ===== src/Discovery/Ring.antt =====
-- The expanding ring: each request reaches further than the one before, up to the net diameter.
use fp_jaringan_nirkabel.Base.{
  ◌+◌, ◌^◌, ◌<◌, ◌≤◌, ◌==◌, ◌≡◌, refl, ◌⊎◌, ◌%◌, inl, inr, arith, Bool-cases, Returns,
}
use fp_jaringan_nirkabel.Net.{Time}
use fp_jaringan_nirkabel.RouteEntry.{
  RoutingTableEntry, in_search, set_life_time, set_flag, set_hop, increment_rreq_cnt,
}
use fp_jaringan_nirkabel.Discovery.{Parameters, next_ttl, counted, searched, retry_time}

-- The ring starts and stays within the net diameter, which fits a `uint16_t` with one step to spare,
-- and the byte that is sent as the time to live.
pub record IsSane (p : Parameters) : Type 0 where
  pub starts : p.ttl_start ≤ p.net_diameter
  pub widens : 0 < p.ttl_increment
  pub threshold : p.ttl_threshold ≤ p.net_diameter
  pub fits : p.net_diameter + p.ttl_increment < 2 ^ 16
  pub byte : p.net_diameter < 2 ^ 8

-- A search whose next backoff is within the 31 bits of an `int`.
abbrev pub IsWithin : Parameters → RoutingTableEntry → Type 0
IsWithin p rt = (rt.hops ≤ p.net_diameter) × (rt.req_count < 31)

-- A search after a request: below the net diameter, or counted.
abbrev pub IsSearched : Parameters → RoutingTableEntry → Type 0
IsSearched p e =
    (e.flag ≡ in_search)
    × (e.hops ≤ p.net_diameter)
    × ((e.hops < p.net_diameter) ⊎ ((0 < e.req_count) × (e.req_count ≤ 31)))

next_ttl-bounds :
    (p : Parameters) (rt : RoutingTableEntry)
    → IsSane p
    → rt.hops ≤ p.net_diameter
    → (next_ttl p rt ≤ p.net_diameter)
      × ((rt.hops < next_ttl p rt) ⊎ (next_ttl p rt ≡ p.net_diameter))
unfolding next_ttl
next_ttl-bounds p rt sane h = ground (arith, sane.widens, sane.threshold, sane.fits)

-- For a sane ring whose net diameter fits a byte, and a route within the diameter that was counted
-- less than 31 times, the byte that each further request for the destination sends as its time to
-- live is kept as the route's hop count. It is more than the last one and below the net diameter, or
-- it is the net diameter and the request is counted.
pub searched-advances :
    (p : Parameters) (now : Time) (rt : RoutingTableEntry)
    → IsSane p
    → IsWithin p rt
    → let e = searched p now (next_ttl p rt) rt in
      IsSearched p e
      × (next_ttl p rt % 2 ^ 8 ≡ e.hops)
      × (((rt.hops < e.hops) × (e.hops < p.net_diameter) × (e.req_count ≡ rt.req_count))
          ⊎ ((e.hops ≡ p.net_diameter) × (e.req_count ≡ rt.req_count + 1)))
unfolding searched counted set_life_time set_flag set_hop increment_rreq_cnt
searched-advances p now rt sane (h, c) =
    let (within, further) = next_ttl-bounds p rt sane h in
    elim (Bool-cases (next_ttl p rt == p.net_diameter)) [
      | inl full ↦ rw full (
        (refl, within, inr (ground arith, ground arith)),
        omega (arith, within, sane.byte),
        inr (ground arith, ground arith),
      )
      | inr part ↦ rw part (
        (refl, within, inl (ground (arith, within, further))),
        omega (arith, within, sane.byte),
        inl (ground (arith, within, further)),
      )
    ]

pub retry_time-Returns :
    (p : Parameters) (e : RoutingTableEntry) → IsSearched p e → Returns (retry_time p e) (λ t. Unit)
unfolding retry_time
retry_time-Returns p e (_, _, h) = ground arith
