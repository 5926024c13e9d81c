-- ===== src/Protocol/Invariant.antt =====
-- What every call keeps of the node's state: the parts that the handlers are made of.
pub mod Data
pub mod Requests
pub mod Replies
pub mod Interfaces
use fp_jaringan_nirkabel.Base.{
  ℕ, zero, suc, ◌≤◌, ◌<◌, ◌^◌, ◌==◌, ◌≡◌, refl, sym, subst, Bool, true, false, Option, none, some,
  List, [], ◌∷◌, ◌++◌, map, Bool-cases, Option-cases, OnSome, Returns, inl, inr, arith, length,
}
use fp_jaringan_nirkabel.AddressMap.{find}
use fp_jaringan_nirkabel.Net.{Time, Packet, Ipv4Header}
use fp_jaringan_nirkabel.Platform.{Platform}
use fp_jaringan_nirkabel.RouteEntry.{Ipv4Route, RoutingTableEntry, InterfaceAddress, is_in_search}
use fp_jaringan_nirkabel.RoutingTable.{RoutingTable, purge, lookup_route, if_valid, delete_route}
use fp_jaringan_nirkabel.RoutingTable.Invariant.{IsValid, delete_route-IsValid, purge-IsValid}
use fp_jaringan_nirkabel.RequestQueue.{
  RequestQueue, dequeue, enqueue, queue_entry, drop_packet_with_dst,
}
use fp_jaringan_nirkabel.RequestQueue.Bounds as Queue
use fp_jaringan_nirkabel.Discovery.{Discovery, Event, or_default, send_request}
use fp_jaringan_nirkabel.Discovery.Validity as Searching
use fp_jaringan_nirkabel.Errors.{Reporter, ErrorMessage}
use fp_jaringan_nirkabel.Errors.Validity as Reporting
use fp_jaringan_nirkabel.Neighbors.{Neighbors}
use fp_jaringan_nirkabel.Neighbors as Nb
use fp_jaringan_nirkabel.Errors.Broken.{send_rerr_when_breaks_link_to_next_hop}
use fp_jaringan_nirkabel.Protocol.{
  Node, Protocol, Output, table_of, with_table, after, ◌▹◌, reporter, put_back, report, discover,
  dropped, search_for, break_link, break_links, update_neighbor, through,
}
use fp_jaringan_nirkabel.Protocol.Queueing.{
  is_elsewhere, forward, put_before, send_loop, send_packet_from_queue, with_queue, give_up,
  route_request_timer_expire, is_searching, deferred_route_output,
}

-- The table has one route to a destination, in order and under its key; the queue is within its
-- limit and has no packet twice; the counts are within the limits, which fit their type.
pub record IsSafe {D : Type 0} (node : Node) (s : Protocol D) : Type 0 where
  pub table : IsValid (table_of s)
  pub queue : Queue.IsValid s.queue
  pub requests : s.discovery.rreq_count ≤ node.parameters.rreq_rate_limit
  pub errors : s.rerr_count ≤ node.rerr_rate_limit
  pub requests_fit : node.parameters.rreq_rate_limit < 2 ^ 16
  pub errors_fit : node.rerr_rate_limit < 2 ^ 16

-- If the call returns, then with a safe state.
abbrev pub Safe : {D : Type 0} → Node → Option (Protocol D × List Output) → Type 0
Safe node r = OnSome r λ r. IsSafe node r.0

module _ {D : Type 0} (node : Node) where
  pub with_table-IsSafe :
      (t : RoutingTable D) (s : Protocol D)
      → IsValid t
      → IsSafe node s
      → IsSafe node (with_table t s)
  with_table-IsSafe t s v h = record {
    table = v;
    queue = h.queue;
    requests = h.requests;
    errors = h.errors;
    requests_fit = h.requests_fit;
    errors_fit = h.errors_fit;
  }

  -- The other members do not matter.
  pub like-IsSafe :
      (s s' : Protocol D)
      → table_of s' ≡ table_of s
      → s'.queue ≡ s.queue
      → s'.discovery.rreq_count ≡ s.discovery.rreq_count
      → s'.rerr_count ≡ s.rerr_count
      → IsSafe node s
      → IsSafe node s'
  like-IsSafe s s' same_table same_queue same_requests same_errors h = record {
    table = subst IsValid (sym same_table) h.table;
    queue = subst Queue.IsValid (sym same_queue) h.queue;
    requests = omega (arith, h.requests, same_requests);
    errors = omega (arith, h.errors, same_errors);
    requests_fit = h.requests_fit;
    errors_fit = h.errors_fit;
  }

  with_queue-IsSafe :
      (q : RequestQueue) (s : Protocol D)
      → Queue.IsValid q
      → IsSafe node s
      → IsSafe node (record s { queue = q })
  with_queue-IsSafe q s v h = record {
    table = h.table;
    queue = v;
    requests = h.requests;
    errors = h.errors;
    requests_fit = h.requests_fit;
    errors_fit = h.errors_fit;
  }

  after-Safe :
      (out : List Output) (r : Option (Protocol D × List Output))
      → Safe node r
      → Safe node (after out r)
  after-Safe out none h = tt
  after-Safe out (some r) h = h

  pub ▹-Safe :
      (r : Option (Protocol D × List Output)) (f : Protocol D → Option (Protocol D × List Output))
      → Safe node r
      → ((s : Protocol D) → IsSafe node s → Safe node (f s))
      → Safe node (r ▹ f)
  ▹-Safe none f h k = tt
  ▹-Safe (some (s, out)) f h k = after-Safe out (f s) (k s h)

  pub reporter-IsSound :
      (s : Protocol D) → IsSafe node s → Reporting.IsSound node.rerr_rate_limit (reporter node s)
  unfolding reporter
  reporter-IsSound s h = record {
    table = h.table;
    within = h.errors;
    limited = refl;
    small = h.errors_fit;
  }

  -- A call on the reporter keeps its limit, so that a sound one leaves a safe state.
  pub report-Safe :
      (s : Protocol D) (r : Option (Reporter D × List ErrorMessage))
      → IsSafe node s
      → OnSome r (λ r. Reporting.IsSound node.rerr_rate_limit r.0)
      → Safe node (report s r)
  unfolding put_back
  report-Safe s none h k = tt
  report-Safe s (some (r, sent)) h v = record {
    table = v.table;
    queue = h.queue;
    requests = h.requests;
    errors = v.within;
    requests_fit = h.requests_fit;
    errors_fit = h.errors_fit;
  }

  discover-Safe :
      (s : Protocol D) (r : Option (Discovery D × List Event))
      → IsSafe node s
      → OnSome r (λ r. Searching.IsSound node.parameters r.0)
      → Safe node (discover s r)
  discover-Safe s none h k = tt
  discover-Safe s (some (d, events)) h v = record {
    table = v.table;
    queue = h.queue;
    requests = v.within;
    errors = h.errors;
    requests_fit = h.requests_fit;
    errors_fit = h.errors_fit;
  }

weaker :
    {A : Type 0} {P Q : A → Type 0} (r : Option A)
    → Returns r P
    → ((a : A) → P a → Q a)
    → OnSome r Q
weaker none h k = absurd h
weaker (some a) h k = k a h

put_before-IsValid :
    (out : List Output) (r : Option (RequestQueue × List Output))
    → OnSome r (λ r. Queue.IsValid r.0)
    → OnSome (put_before out r) (λ r. Queue.IsValid r.0)
unfolding put_before
put_before-IsValid out none h = tt
put_before-IsValid out (some (q, more)) h = h

module _ (node : Node) (now : Time) where
  send_loop-IsValid :
      (fuel dst : ℕ) (route : Ipv4Route) (q : RequestQueue)
      → Queue.IsValid q
      → OnSome (send_loop fuel node now dst route q) (λ r. Queue.IsValid r.0)
  unfolding send_loop
  send_loop-IsValid zero dst route q v = tt
  send_loop-IsValid (suc fuel) dst route q v =
      let v' = (Queue.operations-IsValid now dst q v).0 in
      let (q', calls, found) = dequeue now dst q in
      elim (Option-cases found) [
        | inl nothing ↦ rw (nothing, send_loop) v'
        | inr (e, there) ↦ elim (Bool-cases (is_elsewhere node route e.packet.deferred_tag)) [
          | inl lost ↦ rw (there, send_loop, lost) v'
          | inr sent ↦
              rw (there, send_loop, sent)
                (put_before-IsValid (map dropped calls ++ forward route e ∷ [])
                  (send_loop fuel node now dst route q') (send_loop-IsValid fuel dst route q' v'))
        ]
      ]

module _ {D : Type 0} ⦃o : Platform D⦄ (node : Node) (now : Time) where
  pub search_for-Safe :
      (dst : ℕ) (s : Protocol D) → IsSafe node s → Safe node (search_for node now dst s)
  unfolding search_for
  search_for-Safe dst s h =
      discover-Safe node s (send_request node.parameters now dst s.discovery) h (
        Searching.send_request-IsSound node.parameters now dst s.discovery
          (record { table = h.table; within = h.requests; small = h.requests_fit }))

  pub break_links-Safe :
      (failures : List ℕ) (s : Protocol D)
      → IsSafe node s
      → Safe node (break_links node now failures s)
  unfolding break_links break_link
  break_links-Safe [] s h = h
  break_links-Safe (a ∷ failures) s h =
      ▹-Safe node (break_link node now a s) (break_links node now failures)
        (report-Safe node s (send_rerr_when_breaks_link_to_next_hop now a (reporter node s)) h (
          Reporting.send_rerr_when_breaks_link_to_next_hop-IsSound node.rerr_rate_limit now a
            (reporter node s) (reporter-IsSound node s h)))
        (break_links-Safe failures)

  pub with_neighbors-IsSafe :
      (n : Neighbors) (s : Protocol D) → IsSafe node s → IsSafe node (record s { neighbors = n })
  with_neighbors-IsSafe n s h =
      like-IsSafe node s (record s { neighbors = n }) refl refl refl refl h

  pub update_neighbor-Safe :
      (addr : ℕ) (expire : Time) (s : Protocol D)
      → IsSafe node s
      → Safe node (update_neighbor node now addr expire s)
  unfolding update_neighbor
  update_neighbor-Safe addr expire s h =
      let (n, failures) = Nb.update node.view now addr expire s.neighbors in
      break_links-Safe failures (record s { neighbors = n }) (with_neighbors-IsSafe n s h)

  pub send_packet_from_queue-Safe :
      (dst : ℕ) (route : Ipv4Route) (s : Protocol D)
      → IsSafe node s
      → Safe node (send_packet_from_queue node now dst route s)
  unfolding send_packet_from_queue
  send_packet_from_queue-Safe dst route s h =
      let v = send_loop-IsValid node now (suc (length s.queue.queue)) dst route s.queue h.queue in
      elim (Option-cases (send_loop (suc (length s.queue.queue)) node now dst route s.queue)) [
        | inl nothing ↦ rw nothing tt
        | inr ((q, out), there) ↦
            rw there (
              with_queue-IsSafe node q s (subst (λ o. OnSome o (λ r. Queue.IsValid r.0)) there v) h)
      ]

  give_up-IsSafe : (dst : ℕ) (s : Protocol D) → IsSafe node s → IsSafe node (give_up now dst s).0
  unfolding give_up
  give_up-IsSafe dst s h = record {
    table = delete_route-IsValid now dst (table_of s) h.table;
    queue = (Queue.operations-IsValid now dst s.queue h.queue).1;
    requests = h.requests;
    errors = h.errors;
    requests_fit = h.requests_fit;
    errors_fit = h.errors_fit;
  }

  purged-IsSafe :
      (s : Protocol D) → IsSafe node s → IsSafe node (with_table (purge now (table_of s)) s)
  purged-IsSafe s h =
      with_table-IsSafe node (purge now (table_of s)) s (purge-IsValid now (table_of s) h.table) h

  pub route_request_timer_expire-Safe :
      (dst : ℕ) (s : Protocol D)
      → IsSafe node s
      → Safe node (route_request_timer_expire node now dst s)
  unfolding route_request_timer_expire lookup_route
  route_request_timer_expire-Safe dst s h =
      let (t, found) = lookup_route now dst (table_of s) in
      let s1 = with_table t s in
      let h1 = purged-IsSafe s h in
      let to_dst = or_default node.parameters now found in
      elim (Option-cases (if_valid found)) [
        | inr (rt, there) ↦
            rw (there, route_request_timer_expire) (send_packet_from_queue-Safe dst rt.route s1 h1)
        | inl no_route ↦ elim (Bool-cases (to_dst.req_count == node.rreq_retries)) [
          | inl exhausted ↦
              rw (no_route, route_request_timer_expire, exhausted) (give_up-IsSafe dst s1 h1)
          | inr fewer ↦ elim (Bool-cases (is_in_search to_dst.flag)) [
            | inl searching ↦
                rw (no_route, route_request_timer_expire, fewer, searching)
                  (search_for-Safe dst s1 h1)
            | inr idle ↦
                rw (no_route, route_request_timer_expire, fewer, idle) (give_up-IsSafe dst s1 h1)
          ]
        ]
      ]

  pub deferred_route_output-Safe :
      (p : Packet) (header : Ipv4Header) (ucb ecb : ℕ) (s : Protocol D)
      → IsSafe node s
      → Safe node (deferred_route_output node now p header ucb ecb s)
  unfolding deferred_route_output lookup_route
  deferred_route_output-Safe p header ucb ecb s h =
      let entry = queue_entry now p header ucb ecb now in
      let found = (lookup_route now header.destination (table_of s)).1 in
      let entered = Queue.enqueue-IsValid now entry s.queue h.queue in
      elim (Option-cases (enqueue now entry s.queue)) [
        | inl fails ↦ rw fails tt
        | inr ((q, calls, result), there) ↦
            let v =
              subst (λ o. OnSome o (λ r. Queue.IsValid r.0)) there
                (weaker (enqueue now entry s.queue) entered (λ r v. v.0)) in
            let h1 = with_queue-IsSafe node q s v h in
            let h2 =
              with_table-IsSafe node (purge now (table_of s)) (record s { queue = q })
                (purge-IsValid now (table_of s) h.table) h1 in
            elim (Bool-cases result) [
              | inl new ↦ elim (Bool-cases (is_searching found)) [
                | inl searching ↦ rw (there, new, searching) h2
                | inr idle ↦
                    rw (there, new, idle)
                      (after-Safe node (map dropped calls) _
                        (search_for-Safe header.destination _ h2))
              ]
              | inr old ↦ rw (there, old) h1
            ]
      ]
