-- ===== src/Discovery/Validity.antt =====
-- A discovery keeps the table valid and the count of requests within its limit, whatever the search.
use fp_jaringan_nirkabel.Base.{
  ℕ, ◌≤◌, ◌<◌, ◌^◌, ◌==◌, false, Bool-cases, Option-cases, OnSome, inl, inr, arith,
}
use fp_jaringan_nirkabel.AddressMap.{find}
use fp_jaringan_nirkabel.Net.{Time}
use fp_jaringan_nirkabel.Platform.{Platform}
use fp_jaringan_nirkabel.RouteEntry.{new_entry, set_flag, in_search}
use fp_jaringan_nirkabel.RoutingTable.{RoutingTable, purge, lookup_route}
use fp_jaringan_nirkabel.RoutingTable.Invariant.{
  IsValid, purge-IsValid, update-IsValid, add_route-IsValid,
}
use fp_jaringan_nirkabel.Discovery.{
  Parameters, Discovery, counted, searched, next_ttl, or_default, retry_time, schedule_rreq_retry,
  search, requested, send_request,
}

pub record IsSound {D : Type 0} (p : Parameters) (s : Discovery D) : Type 0 where
  pub table : IsValid s.table
  pub within : s.rreq_count ≤ p.rreq_rate_limit
  pub small : p.rreq_rate_limit < 2 ^ 16

module _ {D : Type 0} ⦃o : Platform D⦄ where
  search-IsValid :
      (p : Parameters) (now : Time) (dst : ℕ) (t : RoutingTable D)
      → IsValid t
      → IsValid (search p now dst t).0
  unfolding search lookup_route
  search-IsValid p now dst t v = elim (Option-cases (find dst (purge now t).routes)) [
    | inl new ↦
        rw (new, search)
          (add_route-IsValid now
            (set_flag in_search (
              counted p p.ttl_start (
                new_entry now 0 dst false 0 p.default_interface p.ttl_start p.default_address
                  p.path_discovery_time)))
            (purge now t) (purge-IsValid now t v))
    | inr (rt, there) ↦
        rw (there, search)
          (update-IsValid (searched p now (next_ttl p rt) rt) (purge now t) (purge-IsValid now t v))
  ]

  pub send_request-IsSound :
      (p : Parameters) (now : Time) (dst : ℕ) (s : Discovery D)
      → IsSound p s
      → OnSome (send_request p now dst s) (λ r. IsSound p r.0)
  unfolding send_request requested schedule_rreq_retry lookup_route
  send_request-IsSound p now dst s v =
      let s' = (requested p now dst s).0 in
      let rt = or_default p now (lookup_route now dst s'.table).1 in
      elim (Bool-cases (s.rreq_count == p.rreq_rate_limit)) [
        | inl limited ↦ rw limited v
        | inr below ↦ elim (Option-cases (retry_time p rt)) [
          | inl aborts ↦ rw (below, aborts) tt
          | inr (retry, known) ↦
              rw (below, known)
                (record {
                  table = purge-IsValid now s'.table (search-IsValid p now dst s.table v.table);
                  within = ground (arith, v.within, v.small);
                  small = v.small;
                })
        ]
      ]
