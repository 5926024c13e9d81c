-- ===== src/Discovery/Returns.antt =====
-- `SendRequest` does not abort, and what it leaves.
use mathlib.Core.Option as Opt
use fp_jaringan_nirkabel.Base.{
  ℕ, subst, sym, ◌<◌, ◌==◌, ◌≡◌, refl, ap, ◌∙◌, inl, inr, false, none, some, arith, Bool-cases,
  Option-cases, Returns, OnSome,
}
use fp_jaringan_nirkabel.AddressMap.{find, assign}
use fp_jaringan_nirkabel.Net.{Time}
use fp_jaringan_nirkabel.Platform.{Platform}
use fp_jaringan_nirkabel.RouteEntry.{
  RoutingTableEntry, in_search, is_in_search, set_life_time, set_flag, set_hop, increment_rreq_cnt,
  new_entry,
}
use fp_jaringan_nirkabel.RoutingTable.{
  RoutingTable, purge, purge_entry, purge_expired, lookup_route, add_route, update, stored,
}
use fp_jaringan_nirkabel.RoutingTable.Invariant.{
  IsValid, destination-find, purge-IsValid, update-IsValid, add_route-IsValid,
}
use fp_jaringan_nirkabel.RoutingTable.Lookup.{find-purge}
use fp_jaringan_nirkabel.Routing.Freshness.{find-added, find-updated}
use fp_jaringan_nirkabel.IdCache.{IdCache}
use fp_jaringan_nirkabel.Discovery.{
  Parameters, Discovery, counted, searched, next_ttl, retry_time, or_default, schedule_rreq_retry,
  search, requested, send_request,
}
use fp_jaringan_nirkabel.Discovery.Ring.{
  IsSane, IsWithin, IsSearched, searched-advances, retry_time-Returns,
}

stored-in_search : (e : RoutingTableEntry) → e.flag ≡ in_search → stored e ≡ e
unfolding stored is_in_search
stored-in_search e h = rw h refl

purge_entry-in_search :
    (now bad : Time) (dst : ℕ) (e : RoutingTableEntry)
    → e.flag ≡ in_search
    → purge_entry now bad dst e ≡ some e
unfolding purge_entry purge_expired
purge_entry-in_search now bad dst e h = rw h (ground arith)

-- A new search.
begun : (p : Parameters) (now : Time) (dst : ℕ) → RoutingTableEntry
unfolding set_flag counted new_entry
begun p now dst = set_flag in_search (
    counted p p.ttl_start (
      new_entry now 0 dst false 0 p.default_interface p.ttl_start p.default_address
        p.path_discovery_time))

destination-begun :
    (p : Parameters) (now : Time) (dst : ℕ) → (begun p now dst).route.destination ≡ dst
unfolding begun set_flag counted new_entry increment_rreq_cnt
destination-begun p now dst = ground arith

destination-searched :
    (p : Parameters) (now : Time) (ttl : ℕ) (rt : RoutingTableEntry)
    → (searched p now ttl rt).route.destination ≡ rt.route.destination
unfolding searched set_life_time set_flag set_hop counted increment_rreq_cnt
destination-searched p now ttl rt = ground arith

begun-IsSearched :
    (p : Parameters) (now : Time) (dst : ℕ) → IsSane p → IsSearched p (begun p now dst)
unfolding begun set_flag counted new_entry increment_rreq_cnt
begun-IsSearched p now dst sane = elim (Bool-cases (p.ttl_start == p.net_diameter)) [
  | inl full ↦ rw full (refl, sane.starts, inr (omega arith))
  | inr part ↦ rw part (refl, sane.starts, inl (ground (arith, sane.starts)))
]

module _ {D : Type 0} ⦃o : Platform D⦄ where
  -- A search survives the next purge.
  pub find-purge_in_search :
      (now : Time) (dst : ℕ) (e : RoutingTableEntry) (t : RoutingTable D)
      → IsValid t
      → find dst t.routes ≡ some e
      → e.flag ≡ in_search
      → find dst (purge now t).routes ≡ some e
  unfolding Opt.bind
  find-purge_in_search now dst e t v there h =
      find-purge now dst t v ∙ rw there (purge_entry-in_search now t.bad_link_lifetime dst e h)

  add_route-in_search :
      (now : Time) (dst : ℕ) (e : RoutingTableEntry) (t : RoutingTable D)
      → IsValid t
      → e.route.destination ≡ dst
      → e.flag ≡ in_search
      → find dst (purge now t).routes ≡ none
      → find dst (add_route now e (purge now t)).0.routes ≡ some e
  add_route-in_search now dst e t v d f new =
      subst
        (λ k.
          find k (purge now t).routes ≡ none
          → find k (add_route now e (purge now t)).0.routes ≡ some (stored e))
        d (find-added now e t v) new
      ∙ ap some (stored-in_search e f)

  update-in_search :
      (dst : ℕ) (e old : RoutingTableEntry) (t : RoutingTable D)
      → e.route.destination ≡ dst
      → e.flag ≡ in_search
      → find dst t.routes ≡ some old
      → find dst (update e t).0.routes ≡ some e
  update-in_search dst e old t d f there =
      subst (λ k. find k t.routes ≡ some old → find k (update e t).0.routes ≡ some (stored e)) d
        (find-updated e old t) there
      ∙ ap some (stored-in_search e f)

  -- What `SendRequest` writes to the table.
  search-found :
      (p : Parameters) (now : Time) (dst : ℕ) (t : RoutingTable D)
      → IsSane p
      → IsValid t
      → OnSome (find dst (purge now t).routes) (IsWithin p)
      → let t' = (search p now dst t).0 in
        IsValid t' × ((e : RoutingTableEntry) × (find dst t'.routes ≡ some e) × IsSearched p e)
  unfolding search lookup_route begun
  search-found p now dst t sane v h = elim (Option-cases (find dst (purge now t).routes)) [
    | inl new ↦
        let e = begun p now dst in
        let fresh = begun-IsSearched p now dst sane in
        rw (new, search)
          (
            add_route-IsValid now e (purge now t) (purge-IsValid now t v),
            (e, add_route-in_search now dst e t v (destination-begun p now dst) fresh.0 new, fresh),
          )
    | inr (rt, there) ↦
        let e = searched p now (next_ttl p rt) rt in
        let within = subst (λ o. OnSome o (IsWithin p)) there h in
        let further = (searched-advances p now rt sane within).0 in
        rw (there, search)
          (
            update-IsValid e (purge now t) (purge-IsValid now t v),
            (
              e,
              update-in_search dst e rt (purge now t)
                  (destination-searched p now (next_ttl p rt) rt
                    ∙ destination-find dst (purge now t).routes rt (purge-IsValid now t v).keyed
                        there)
                  further.0 there,
              further,
            ),
          )
  ]

  schedule_lem :
      (p : Parameters) (now : Time) (dst : ℕ) (e : RoutingTableEntry) (s : Discovery D)
      → IsValid s.table
      → find dst s.table.routes ≡ some e
      → IsSearched p e
      → (retry : Time) × (retry_time p e ≡ some retry)
        × (schedule_rreq_retry p now dst s
            ≡ some record s {
              table = purge now s.table;
              address_req_timer = assign dst retry s.address_req_timer;
            })
  unfolding schedule_rreq_retry lookup_route or_default
  schedule_lem p now dst e s v there searching = elim (Option-cases (retry_time p e)) [
    | inl aborts ↦
        absurd (subst (λ o. Returns o (λ t. Unit)) aborts (retry_time-Returns p e searching))
    | inr (retry, known) ↦ (
      retry,
      known,
      rw (find-purge_in_search now dst e s.table v there searching.0, or_default, known) refl,
    )
  ]

  -- With a search under way, the route that is left is that search, one step further.
  pub send_request-searched :
      (p : Parameters) (now : Time) (dst : ℕ) (s : Discovery D) (rt : RoutingTableEntry)
      → IsSane p
      → IsValid s.table
      → s.rreq_count < p.rreq_rate_limit
      → find dst (purge now s.table).routes ≡ some rt
      → IsWithin p rt
      → Returns (send_request p now dst s) (λ r.
        IsValid r.0.table × (find dst r.0.table.routes ≡ some (searched p now (next_ttl p rt) rt)))
  unfolding send_request requested
  send_request-searched p now dst s rt sane v below there within =
      let e = searched p now (next_ttl p rt) rt in
      let t = purge now s.table in
      let pv = purge-IsValid now s.table v in
      let further = (searched-advances p now rt sane within).0 in
      let s' = (requested p now dst s).0 in
      let (v', _) =
        search-found p now dst s.table sane v
          (subst (λ o. OnSome o (IsWithin p)) (sym there) within) in
      let found : find dst (search p now dst s.table).0.routes ≡ some e =
        rw (there, search)
          (update-in_search dst e rt t
            (destination-searched p now (next_ttl p rt) rt
              ∙ destination-find dst t.routes rt pv.keyed there)
            further.0 there) in
      let (retry, known, done) = schedule_lem p now dst e s' v' found further in
      let not_limited : (s.rreq_count == p.rreq_rate_limit) ≡ false = ground arith in
      rw (not_limited, done, send_request)
        (purge-IsValid now s'.table v', find-purge_in_search now dst e s'.table v' found further.0)
