-- ===== src/RoutingTable/Lookup.antt =====
-- What the routing table answers: lookups after a purge, an addition and an update.
use mathlib.Core.Option as Opt
use fp_jaringan_nirkabel.Base.{
  ℕ, ◌≡◌, ◌≢◌, ◌==◌, ◌↔◌, refl, true, false, none, some, arith, Option, if◌then◌else◌, Option-cases,
  inl, inr, ◌∙◌, sym, ap, ◌≤ℤ◌, ◌<ℤ◌, -ℤ_parts, ltb_ℤ, ◌+ℤ◌,
}
use fp_jaringan_nirkabel.AddressMap.{find}
use fp_jaringan_nirkabel.AddressMap.Laws.{find-update_all, find-insert, find-modify, find-erase}
use fp_jaringan_nirkabel.Net.{Time}
use fp_jaringan_nirkabel.Platform.{Platform}
use fp_jaringan_nirkabel.RouteEntry.{
  valid, invalid, is_valid, RoutingTableEntry, get_life_time, invalidate,
}
use fp_jaringan_nirkabel.RoutingTable.{
  RoutingTable, has_run_out, purge_entry, purge_expired, purge, lookup_route, lookup_valid_route,
  if_valid, add_route, update, stored, delete_route,
}
use fp_jaringan_nirkabel.RoutingTable.Invariant.{
  IsValid, routes-purge, purge-IsValid, bad_link_lifetime-purge,
}

-- The life time has not run out by `now`.
abbrev pub IsLive : Time → RoutingTableEntry → Type 0
IsLive now e = now ≤ℤ e.life_time

has_run_out_iff : (now : Time) (e : RoutingTableEntry) → (has_run_out now e ≡ false) ↔ IsLive now e
unfolding has_run_out get_life_time
has_run_out_iff now e = ground (arith, -ℤ_parts e.life_time now)

-- What a purge leaves as a valid route was one before, with time left.
purged_valid :
    (now bad : Time) (dst : ℕ) (found : Option RoutingTableEntry) (e : RoutingTableEntry)
    → if_valid (Opt.bind found (purge_entry now bad dst)) ≡ some e
    → (found ≡ some e) × (e.flag ≡ valid) × IsLive now e
unfolding if_valid purge_entry purge_expired is_valid Opt.bind invalidate
purged_valid now bad dst none e h = absurd (cc)
purged_valid now bad dst (some x) e h = ground (arith, (has_run_out_iff now x).0)

valid_purged :
    (now bad : Time) (dst : ℕ) (e : RoutingTableEntry)
    → e.flag ≡ valid
    → IsLive now e
    → if_valid (Opt.bind (some e) (purge_entry now bad dst)) ≡ some e
unfolding if_valid purge_entry purge_expired is_valid Opt.bind
valid_purged now bad dst e f l = rw ((has_run_out_iff now e).1 l, f)

module _ {D : Type 0} ⦃o : Platform D⦄ where
  -- A purge acts on the route to each destination by itself.
  pub find-purge :
      (now : Time) (dst : ℕ) (t : RoutingTable D)
      → IsValid t
      → find dst (purge now t).routes
        ≡ Opt.bind (find dst t.routes) (purge_entry now t.bad_link_lifetime dst)
  find-purge now dst t v =
      ap (find dst) (routes-purge now t)
      ∙ find-update_all (purge_entry now t.bad_link_lifetime) dst t.routes v.sorted

  -- `LookupValidRoute` gives a route exactly when the table holds a route to the destination that is
  -- marked valid and whose life time has not run out, and gives that route unchanged.
  pub lookup_valid_route_iff :
      (now : Time) (dst : ℕ) (t : RoutingTable D) (e : RoutingTableEntry)
      → IsValid t
      → ((lookup_valid_route now dst t).1 ≡ some e)
        ↔ ((find dst t.routes ≡ some e) × (e.flag ≡ valid) × IsLive now e)
  unfolding lookup_valid_route lookup_route
  lookup_valid_route_iff now dst t e v = (
    λ h.
        purged_valid now t.bad_link_lifetime dst (find dst t.routes) e
          (ap if_valid (sym (find-purge now dst t v)) ∙ h),
    λ (h, f, l).
        ap if_valid (find-purge now dst t v)
        ∙ rw h (valid_purged now t.bad_link_lifetime dst e f l),
  )

  -- After `AddRoute` of a route to a destination that has none after the purge, a lookup finds the
  -- route as it is stored; where there is one, it is kept and the call fails. The routes to all other
  -- destinations are those of the purge.
  pub find-add_route :
      (now : Time) (e : RoutingTableEntry) (dst : ℕ) (t : RoutingTable D)
      → let (t', added) = add_route now e t in
        let before = find dst (purge now t).routes in
        (find dst t'.routes
          ≡ (if e.route.destination == dst then Opt.or_else before (some (stored e)) else before))
        × ((added ≡ true) ↔ (find e.route.destination (purge now t).routes ≡ none))
  unfolding add_route Opt.or_else
  find-add_route now e dst t = elim (Option-cases (find e.route.destination (purge now t).routes)) [
    | inl new ↦
        rw (new, add_route)
          (
            rw (find-insert e.route.destination dst (stored e) (purge now t).routes new)
                (ground arith),
            (λ h. refl, λ h. refl),
          )
    | inr (old, there) ↦ rw (there, add_route) (ground arith, (λ h. cc, λ h. cc))
  ]

  -- `Update` succeeds exactly if the destination has a route. It then replaces that route by the
  -- new one as it is stored, and leaves the routes to all other destinations alone.
  pub find-update :
      (e : RoutingTableEntry) (dst : ℕ) (t : RoutingTable D)
      → let (t', done) = update e t in
        (find dst t'.routes ≡ (
          if e.route.destination == dst
          then Opt.map (λ _. stored e) (find dst t.routes)
          else find dst t.routes))
        × ((done ≡ true) ↔ (find e.route.destination t.routes ≢ none))
  unfolding update
  find-update e dst t = elim (Option-cases (find e.route.destination t.routes)) [
    | inl new ↦ rw (new, update) (ground arith, (λ h. cc, λ h. absurd (h refl)))
    | inr (old, there) ↦
        rw (there, update)
          (find-modify e.route.destination dst (λ _. stored e) t.routes, (λ _ h. cc, λ _. refl))
  ]

  -- `DeleteRoute` succeeds exactly if the purge leaves a route to the destination; the routes to
  -- all other destinations are those of the purge.
  pub find-delete_route :
      (now : Time) (key dst : ℕ) (t : RoutingTable D)
      → let (t', done) = delete_route now key t in
        (find dst t'.routes ≡ (if key == dst then none else find dst (purge now t).routes))
        × ((done ≡ true) ↔ (find key (purge now t).routes ≢ none))
  unfolding delete_route
  find-delete_route now key dst t = elim (Option-cases (find key (purge now t).routes)) [
    | inl new ↦ rw (new, delete_route) (ground arith, (λ h. cc, λ h. absurd (h refl)))
    | inr (old, there) ↦
        rw (there, delete_route) (find-erase key dst (purge now t).routes, (λ _ h. cc, λ _. refl))
  ]

-- The two purges of an entry that was valid and has run out.
purged_twice :
    (now later bad : Time) (dst : ℕ) (e : RoutingTableEntry)
    → e.flag ≡ valid
    → e.life_time <ℤ now
    → Opt.bind (purge_entry now bad dst e) (purge_entry later bad dst) ≡ (
        if ltb_ℤ (bad +ℤ now) later
        then none
        else some (record e { flag = invalid; req_count = 0; life_time = bad +ℤ now }))
unfolding purge_entry purge_expired has_run_out get_life_time invalidate Opt.bind
purged_twice now later bad dst e f h =
    ground (arith, -ℤ_parts e.life_time now, -ℤ_parts (bad +ℤ now) later)

module _ {D : Type 0} ⦃o : Platform D⦄ where
  -- A valid route whose life time has run out is first marked invalid, with the bad link lifetime
  -- as its new life time, and is erased by a later purge only once that has passed too.
  pub purge-lifecycle :
      (now later : Time) (dst : ℕ) (t : RoutingTable D) (e : RoutingTableEntry)
      → IsValid t
      → find dst t.routes ≡ some e
      → e.flag ≡ valid
      → e.life_time <ℤ now
      → find dst (purge later (purge now t)).routes ≡ (
          if ltb_ℤ (t.bad_link_lifetime +ℤ now) later
          then none
          else some
              (record e { flag = invalid; req_count = 0; life_time = t.bad_link_lifetime +ℤ now }))
  unfolding Opt.bind
  purge-lifecycle now later dst t e v there f h =
      find-purge later dst (purge now t) (purge-IsValid now t v)
      ∙ rw (bad_link_lifetime-purge now t, find-purge now dst t v, there)
          (purged_twice now later t.bad_link_lifetime dst e f h)
