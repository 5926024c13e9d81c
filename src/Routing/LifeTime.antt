-- ===== src/Routing/LifeTime.antt =====
-- What `UpdateRouteLifeTime` and `UpdateRouteToNeighbor` leave of a route.
use fp_jaringan_nirkabel.Base.{
  ℕ, ◌≡◌, refl, ◌⊎◌, inl, inr, true, false, some, Bool-cases, ◌+ℤ◌, ◌≤ℤ◌, max_ℤ,
}
use fp_jaringan_nirkabel.AddressMap.{find}
use fp_jaringan_nirkabel.Net.{Time}
use fp_jaringan_nirkabel.Platform.{Platform}
use fp_jaringan_nirkabel.RouteEntry.{
  RouteFlags, RoutingTableEntry, is_valid, is_in_search, valid, invalid, in_search, set_rreq_cnt,
  set_life_time, get_life_time,
}
use fp_jaringan_nirkabel.RoutingTable.{RoutingTable, purge, lookup_route, stored}
use fp_jaringan_nirkabel.Routing.{update_route_life_time}
use fp_jaringan_nirkabel.Routing.Freshness.{find-updated, max_life_lem}

-- A one-hop route to an address by a device, which lasts at least until a time.
abbrev pub IsOneHop : ℕ → ℕ → Time → RoutingTableEntry → Type 0
IsOneHop sender dev until e =
    (e.flag ≡ valid)
    × (e.route.gateway ≡ sender)
    × (e.hops ≡ 1)
    × (e.route.output_device ≡ dev)
    × (until ≤ℤ e.life_time)

valid_flag : (f : RouteFlags) → is_valid f ≡ true → f ≡ valid
unfolding is_valid
valid_flag valid h = refl
valid_flag invalid h = absurd (cc)
valid_flag in_search h = absurd (cc)

prolonged_lem :
    (now lifetime : Time) (old : RoutingTableEntry)
    → is_valid old.flag ≡ true
    → let new =
        stored (set_life_time now (max_ℤ lifetime (get_life_time now old)) (set_rreq_cnt 0 old)) in
      (new.flag ≡ valid) × (old.life_time ≤ℤ new.life_time) × (now +ℤ lifetime ≤ℤ new.life_time)
unfolding stored set_life_time get_life_time set_rreq_cnt
prolonged_lem now lifetime old h =
    let is_valid_now = valid_flag old.flag h in
    let (kept, enough) = max_life_lem now lifetime old.life_time in
    elim (Bool-cases (is_in_search old.flag)) [
      | inl search ↦ rw search (is_valid_now, kept, enough)
      | inr other ↦ rw other (is_valid_now, kept, enough)
    ]

module _ {D : Type 0} ⦃o : Platform D⦄ where
  -- `UpdateRouteLifeTime` succeeds exactly for a valid route. Such a route then lasts at least the
  -- given time and no shorter than before; any other route is left as it is.
  pub update_route_life_time_lem :
      (now lifetime : Time) (old : RoutingTableEntry) (t : RoutingTable D)
      → find old.route.destination (purge now t).routes ≡ some old
      → let (t', done) = update_route_life_time now old.route.destination lifetime t in
        (done ≡ is_valid old.flag)
        × ((new : RoutingTableEntry) × (find old.route.destination t'.routes ≡ some new)
            × (((is_valid old.flag ≡ false) × (new ≡ old))
                ⊎ ((new.flag ≡ valid)
                    × (old.life_time ≤ℤ new.life_time)
                    × (now +ℤ lifetime ≤ℤ new.life_time))))
  unfolding update_route_life_time lookup_route set_life_time set_rreq_cnt
  update_route_life_time_lem now lifetime old t there = elim (Bool-cases (is_valid old.flag)) [
    | inl usable ↦
        let e = set_life_time now (max_ℤ lifetime (get_life_time now old)) (set_rreq_cnt 0 old) in
        rw (there, usable, update_route_life_time)
          (
            refl,
            (
              stored e,
              find-updated e old (purge now t) there,
              inr (prolonged_lem now lifetime old usable),
            ),
          )
    | inr other ↦ rw (there, other, update_route_life_time) (refl, (old, there, inl (refl, refl)))
  ]
