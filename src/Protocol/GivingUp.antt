-- ===== src/Protocol/GivingUp.antt =====
-- A route discovery ends: with a bounded number of expiries of its timer.
use mathlib.Core.Option as Opt
use fp_jaringan_nirkabel.Base.{
  ℕ, suc, ◌+◌, ◌-◌, ◌≤◌, ◌<◌, ◌==◌, ==_refl, ◌≡◌, refl, ◌∙◌, ◌⊎◌, false, Option, none, some, List,
  [], ◌∷◌, Bool-cases, Returns, Returns-bind, inl, inr, All, All-remove_if, arith, length, ◌>>=◌,
}
use fp_jaringan_nirkabel.AddressMap.{find}
use fp_jaringan_nirkabel.AddressMap.Laws.{find-erase}
use fp_jaringan_nirkabel.Net.{Time}
use fp_jaringan_nirkabel.Platform.{Platform}
use fp_jaringan_nirkabel.RouteEntry.{RoutingTableEntry, in_search, is_in_search}
use fp_jaringan_nirkabel.RoutingTable.{purge, lookup_route}
use fp_jaringan_nirkabel.RoutingTable.Invariant.{IsValid, purge-IsValid, delete_route-IsValid}
use fp_jaringan_nirkabel.RoutingTable.Lookup.{find-purge, find-delete_route}
use fp_jaringan_nirkabel.RequestQueue.{has_destination, drop_packet_with_dst}
use fp_jaringan_nirkabel.Discovery.{Discovery, Event, or_default, next_ttl, searched, send_request}
use fp_jaringan_nirkabel.Discovery.Ring.{IsSane, IsWithin, searched-advances}
use fp_jaringan_nirkabel.Discovery.Returns.{find-purge_in_search, send_request-searched}
use fp_jaringan_nirkabel.Protocol.{Node, Protocol, table_of, with_table, discover, search_for}
use fp_jaringan_nirkabel.Protocol.Queueing.{give_up, route_request_timer_expire}
use fp_jaringan_nirkabel.Protocol.Timers.{rreq_rate_limit_timer_expire}

module _ {D : Type 0} where
  -- No route, no timer and no waiting packet for the destination.
  abbrev pub GivenUp : ℕ → Protocol D → Type 0
  GivenUp dst s =
      (find dst (table_of s).routes ≡ none)
      × (find dst s.discovery.address_req_timer ≡ none)
      × All (λ e. has_destination dst e ≡ false) s.queue.queue

  -- A search of which at most so many steps are left.
  abbrev pub Ongoing : Node → ℕ → ℕ → Protocol D → Type 0
  Ongoing node dst n s =
      (e : RoutingTableEntry) × (find dst (table_of s).routes ≡ some e)
      × (e.flag ≡ in_search)
      × (e.hops ≤ node.parameters.net_diameter)
      × (e.req_count ≤ node.rreq_retries)
      × (node.parameters.net_diameter - e.hops + (node.rreq_retries - e.req_count) ≤ n)

module _ {D : Type 0} ⦃o : Platform D⦄ where
  -- The timer's expiries at some times, each in a second of its own: the rate limit is reset before.
  unfoldable pub expiries : Node → ℕ → List Time → Protocol D → Option (Protocol D)
  unfolding route_request_timer_expire rreq_rate_limit_timer_expire
  expiries node dst [] s = some s
  expiries node dst (now ∷ times) s = do
    (s', out) ← route_request_timer_expire node now dst (rreq_rate_limit_timer_expire s)
    expiries node dst times s'

steps_left :
    (diameter h h' retries c c' n : ℕ)
    → h ≤ diameter
    → c ≤ retries
    → (c == retries) ≡ false
    → diameter - h + (retries - c) ≤ n
    → ((h < h') × (h' < diameter) × (c' ≡ c)) ⊎ ((h' ≡ diameter) × (c' ≡ c + 1))
    → (n ≡ suc (n - 1)) × (c' ≤ retries) × (diameter - h' + (retries - c') ≤ n - 1)
steps_left diameter h h' retries c c' n near counted fewer left further = ground arith

discover-Returns :
    {D : Type 0} {Q : Discovery D → Type 0} (P : Protocol D → Type 0) (s : Protocol D)
    (r : Option (Discovery D × List Event))
    → Returns r (λ r. Q r.0)
    → ((d : Discovery D) → Q d → P (record s { discovery = d }))
    → Returns (discover s r) (λ r. P r.0)
discover-Returns P s none h k = h
discover-Returns P s (some (d, events)) h k = k d h

module _ {D : Type 0} ⦃o : Platform D⦄ (node : Node) (now : Time) (dst : ℕ) where
  give_up-GivenUp :
      (s : Protocol D)
      → IsValid (table_of s)
      → IsValid (table_of (give_up now dst s).0) × GivenUp dst (give_up now dst s).0
  unfolding give_up drop_packet_with_dst
  give_up-GivenUp s v = (
    delete_route-IsValid now dst (table_of s) v,
    (
      (find-delete_route now dst dst (table_of s)).0 ∙ rw (==_refl dst) refl,
      find-erase dst dst s.discovery.address_req_timer ∙ rw (==_refl dst) refl,
      All-remove_if (has_destination dst) _,
    ),
  )

  -- A search that has ended stays ended.
  expire-GivenUp :
      (s : Protocol D)
      → IsValid (table_of s)
      → GivenUp dst s
      → Returns
          (route_request_timer_expire node now dst s)
          (λ r. IsValid (table_of r.0) × GivenUp dst r.0)
  unfolding route_request_timer_expire lookup_route or_default is_in_search Opt.bind
  expire-GivenUp s v over =
      let t = purge now (table_of s) in
      let gone : find dst t.routes ≡ none = find-purge now dst (table_of s) v ∙ rw (over.0) refl in
      let done = give_up-GivenUp (with_table t s) (purge-IsValid now (table_of s) v) in
      elim (Bool-cases (0 == node.rreq_retries)) [
        | inl none_left ↦ rw (gone, route_request_timer_expire, gone, none_left) done
        | inr some_left ↦ rw (gone, route_request_timer_expire, gone, some_left) done
      ]

  -- An expiry ends the search or takes it one step further.
  expire-Ongoing :
      (s : Protocol D) (n : ℕ)
      → IsSane node.parameters
      → node.rreq_retries < 32
      → s.discovery.rreq_count < node.parameters.rreq_rate_limit
      → IsValid (table_of s)
      → Ongoing node dst n s
      → Returns (route_request_timer_expire node now dst s) (λ r.
        IsValid (table_of r.0)
        × (GivenUp dst r.0 ⊎ ((m : ℕ) × (n ≡ suc m) × Ongoing node dst m r.0)))
  unfolding route_request_timer_expire lookup_route search_for
  expire-Ongoing s n sane few below v (e, there, searching, near, counted, left) =
      let p = node.parameters in
      let t = purge now (table_of s) in
      let pv = purge-IsValid now (table_of s) v in
      let still : find dst t.routes ≡ some e =
        find-purge_in_search now dst e (table_of s) v there searching in
      elim (Bool-cases (e.req_count == node.rreq_retries)) [
        | inl exhausted ↦
            let (v', over) = give_up-GivenUp (with_table t s) pv in
            rw (still, route_request_timer_expire, searching, still, exhausted) (v', inl over)
        | inr fewer ↦
            let s1 = with_table t s in
            let again : find dst (purge now t).routes ≡ some e =
              find-purge_in_search now dst e t pv still searching in
            let within : IsWithin p e = (near, ground arith) in
            let e' = searched p now (next_ttl p e) e in
            let advanced = searched-advances p now e sane within in
            let fewer_left =
              steps_left p.net_diameter e.hops e'.hops node.rreq_retries e.req_count e'.req_count n
                near counted fewer left advanced.2 in
            rw (still, route_request_timer_expire, searching, still, fewer, searching)
              (discover-Returns _ s1 (send_request p now dst s1.discovery)
                (send_request-searched p now dst s1.discovery e sane pv below again within)
                (λ d q. (
                  q.0,
                  inr (
                    n - 1,
                    fewer_left.0,
                    (e', q.1, advanced.0.0, advanced.0.1, fewer_left.1, fewer_left.2),
                  ),
                )))
      ]

module _ {D : Type 0} ⦃o : Platform D⦄ (node : Node) (dst : ℕ) where
  expiries-GivenUp :
      (times : List Time) (s : Protocol D)
      → IsValid (table_of s)
      → GivenUp dst s
      → Returns (expiries node dst times s) (GivenUp dst)
  unfolding expiries rreq_rate_limit_timer_expire
  expiries-GivenUp [] s v over = over
  expiries-GivenUp (now ∷ times) s v over =
      let s1 = rreq_rate_limit_timer_expire s in
      Returns-bind (λ r. IsValid (table_of r.0) × GivenUp dst r.0) (GivenUp dst)
        (route_request_timer_expire node now dst s1) (λ r. expiries node dst times r.0)
        (expire-GivenUp node now dst s1 v over) (λ r h. expiries-GivenUp times r.0 h.0 h.1)

  -- A discovery that gets no reply ends, whenever its timer expires and with the rate limit reset in
  -- between, for a sane ring, at most 31 retries, a rate limit above 0 and a valid table: after
  -- more expiries than there are steps left, each of which widens the ring or uses up one of the
  -- retries, no expiry has failed, and there is no route, no timer and no waiting packet for the
  -- destination.
  pub expiries-end :
      (times : List Time) (s : Protocol D) (n : ℕ)
      → IsSane node.parameters
      → node.rreq_retries < 32
      → 0 < node.parameters.rreq_rate_limit
      → IsValid (table_of s)
      → Ongoing node dst n s
      → n < length times
      → Returns (expiries node dst times s) (GivenUp dst)
  unfolding expiries rreq_rate_limit_timer_expire
  expiries-end [] s n sane few positive v ongoing enough = absurd (omega arith)
  expiries-end (now ∷ times) s n sane few positive v ongoing enough =
      let s1 = rreq_rate_limit_timer_expire s in
      Returns-bind
        (λ r.
          IsValid (table_of r.0)
          × (GivenUp dst r.0 ⊎ ((m : ℕ) × (n ≡ suc m) × Ongoing node dst m r.0)))
        (GivenUp dst) (route_request_timer_expire node now dst s1)
        (λ r. expiries node dst times r.0)
        (expire-Ongoing node now dst s1 n sane few positive v ongoing)
        (λ r h. elim h.1 [
          | inl over ↦ expiries-GivenUp times r.0 h.0 over
          | inr (m, less, ongoing') ↦
              expiries-end times r.0 m sane few positive h.0 ongoing' (omega (arith, less, enough))
        ])
