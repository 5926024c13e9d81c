-- ===== src/Protocol/Reachable.antt =====
-- What holds of every state that the node reaches.
use fp_jaringan_nirkabel.Base.{
  ℕ, refl, Option, subst, none, some, List, OnSome, OnSome-bind, Option-cases, inl, inr,
  either_branch, arith,
}
use fp_jaringan_nirkabel.Net.{Time}
use fp_jaringan_nirkabel.Platform.{Platform}
use fp_jaringan_nirkabel.RoutingTable.{mark_link_as_unidirectional}
use fp_jaringan_nirkabel.RoutingTable.{purge_multipath_routes}
use fp_jaringan_nirkabel.RoutingTable.Invariant.{mark-IsValid}
use fp_jaringan_nirkabel.Routing.{update_route_to_neighbor}
use fp_jaringan_nirkabel.Routing.Validity.{update_route_to_neighbor-IsValid}
use fp_jaringan_nirkabel.Neighbors as Nb
use fp_jaringan_nirkabel.Neighbors.{Neighbors}
use fp_jaringan_nirkabel.Errors.{recv_error}
use fp_jaringan_nirkabel.Errors.Validity as Reporting
use fp_jaringan_nirkabel.Protocol.{Node, Protocol, Output, table_of, with_table, reporter}
use fp_jaringan_nirkabel.Protocol.Forwarding.{route_output}
use fp_jaringan_nirkabel.Protocol.Input.{route_input}
use fp_jaringan_nirkabel.Protocol.Timers.{
  hello_timer_expire, rreq_rate_limit_timer_expire, rerr_rate_limit_timer_expire, ack_timer_expire,
  metrics_update_timer_expire, check_path_quality, path_quality_timer_expire,
}
use fp_jaringan_nirkabel.Protocol.Received.{
  Message, rreq, rrep, rerr, rrep_ack, unknown, receiver_of, handle, recv_aodv,
}
use fp_jaringan_nirkabel.Protocol.Steps.{
  Call, sends, takes, receives, searches, retries, greets, resets_requests, resets_errors,
  blacklists, updates_metrics, checks_paths, purges_neighbors, loses_frame, run, Reach, attaches,
  starts, disposes, initializes, comes_up, goes_down, adds_address, removes_address, silently,
}
use fp_jaringan_nirkabel.Protocol.Invariant.{
  IsSafe, Safe, like-IsSafe, with_table-IsSafe, with_neighbors-IsSafe, report-Safe,
  reporter-IsSound, search_for-Safe, break_links-Safe, route_request_timer_expire-Safe,
}
use fp_jaringan_nirkabel.Protocol.Interfaces.{do_initialize, notify_interface_down}
use fp_jaringan_nirkabel.Protocol.Invariant.Interfaces.{
  set_ipv4-IsSafe, start-IsSafe, do_initialize-Safe, do_dispose-IsSafe, notify_interface_up-IsSafe,
  notify_interface_down-Safe, notify_add_address-IsSafe, notify_remove_address-IsSafe,
}
use fp_jaringan_nirkabel.Protocol.Invariant.Data.{route_output-Safe, route_input-Safe}
use fp_jaringan_nirkabel.Protocol.Invariant.Requests.{recv_request-Safe}
use fp_jaringan_nirkabel.Protocol.Invariant.Replies.{recv_reply-Safe, recv_reply_ack-IsSafe}

module _ {D : Type 0} ⦃o : Platform D⦄ (node : Node) (now : Time) where
  handle-Safe :
      (message : Message) (receiver sender ttl : ℕ) (s : Protocol D)
      → IsSafe node s
      → Safe node (handle node now message receiver sender ttl s)
  unfolding handle
  handle-Safe (rreq h) receiver sender ttl s v =
      recv_request-Safe node now h receiver sender ttl s v
  handle-Safe (rrep h) receiver sender ttl s v = recv_reply-Safe node now h receiver sender ttl s v
  handle-Safe (rerr h) receiver sender ttl s v =
      report-Safe node s (recv_error now h sender (reporter node s)) v (
        Reporting.recv_error-IsSound node.rerr_rate_limit now h sender (reporter node s)
          (reporter-IsSound node s v))
  handle-Safe rrep_ack receiver sender ttl s v = recv_reply_ack-IsSafe node now sender s v
  handle-Safe unknown receiver sender ttl s v = v

  recv_aodv-Safe :
      (socket : ℕ) (message : Message) (sender ttl : ℕ) (s : Protocol D)
      → IsSafe node s
      → Safe node (recv_aodv node now socket message sender ttl s)
  unfolding recv_aodv
  recv_aodv-Safe socket message sender ttl s v =
      OnSome-bind (λ r. IsSafe node r.0) (receiver_of socket s) _
        (λ receiver.
          let active = node.active_route_timeout in
          let t = update_route_to_neighbor node.ip now active sender receiver (table_of s) in
          handle-Safe message receiver sender ttl (with_table t s) (
            with_table-IsSafe node t s
              (update_route_to_neighbor-IsValid node.ip now active sender receiver (table_of s)
                v.table)
              v))

  -- The timers that leave the table as it is.
  timers-IsSafe :
      (s : Protocol D)
      → IsSafe node s
      → IsSafe node (hello_timer_expire node now s).0
        × IsSafe node (rreq_rate_limit_timer_expire s)
        × IsSafe node (rerr_rate_limit_timer_expire s)
        × IsSafe node (metrics_update_timer_expire s)
  unfolding hello_timer_expire rreq_rate_limit_timer_expire rerr_rate_limit_timer_expire
      metrics_update_timer_expire
  timers-IsSafe s v = (
    like-IsSafe node s (hello_timer_expire node now s).0 refl refl refl refl v,
    record {
      table = v.table;
      queue = v.queue;
      requests = omega arith;
      errors = v.errors;
      requests_fit = v.requests_fit;
      errors_fit = v.errors_fit;
    },
    record {
      table = v.table;
      queue = v.queue;
      requests = v.requests;
      errors = omega arith;
      requests_fit = v.requests_fit;
      errors_fit = v.errors_fit;
    },
    like-IsSafe node s (metrics_update_timer_expire s) refl refl refl refl v,
  )

  paths-IsSafe :
      (s : Protocol D) → IsSafe node s → IsSafe node (path_quality_timer_expire node now s)
  unfolding path_quality_timer_expire check_path_quality purge_multipath_routes
  paths-IsSafe s v =
      let t = purge_multipath_routes now (table_of s) in
      let purged =
        with_table-IsSafe node t s (record { sorted = v.table.sorted; keyed = v.table.keyed }) v in
      let checked : IsSafe node (check_path_quality now s) =
        either_branch (IsSafe node) s.multipath_enabled (with_table t s) s purged v in
      either_branch (IsSafe node) s.multipath_enabled
        (record (check_path_quality now s) { path_quality_timer = some (node.seconds 3) })
        (record s { path_quality_timer = none })
        (like-IsSafe node (check_path_quality now s) _ refl refl refl refl checked)
        (like-IsSafe node s _ refl refl refl refl v)

  silently-Safe : (r : Option (Protocol D)) → OnSome r (IsSafe node) → Safe node (silently r)
  unfolding silently
  silently-Safe none h = tt
  silently-Safe (some s) h = h

  run-Safe : (call : Call) (s : Protocol D) → IsSafe node s → Safe node (run node now call s)
  unfolding run ack_timer_expire
  run-Safe (sends p header oif) s v = elim (Option-cases (route_output node now p header oif s)) [
    | inl fails ↦ rw fails tt
    | inr ((s', answer), there) ↦ rw there (
        subst (λ o. OnSome o (λ r. IsSafe node r.0)) there
          (route_output-Safe node now p header oif s v))
  ]
  run-Safe (takes p header idev ucb lcb ecb) s v =
      elim (Option-cases (route_input node now p header idev ucb lcb ecb s)) [
        | inl fails ↦ rw fails tt
        | inr ((s', out, handled), there) ↦ rw there (
            subst (λ o. OnSome o (λ r. IsSafe node r.0)) there
              (route_input-Safe node now p header idev ucb lcb ecb s v))
      ]
  run-Safe (receives socket message sender ttl) s v = recv_aodv-Safe socket message sender ttl s v
  run-Safe (searches dst) s v = search_for-Safe node now dst s v
  run-Safe (retries dst) s v = route_request_timer_expire-Safe node now dst s v
  run-Safe greets s v = (timers-IsSafe s v).0
  run-Safe resets_requests s v = (timers-IsSafe s v).1
  run-Safe resets_errors s v = (timers-IsSafe s v).2
  run-Safe (blacklists neighbor timeout) s v =
      with_table-IsSafe node (mark_link_as_unidirectional neighbor timeout (table_of s)).0 s
        (mark-IsValid neighbor timeout (table_of s) v.table) v
  run-Safe updates_metrics s v = (timers-IsSafe s v).3
  run-Safe checks_paths s v = paths-IsSafe s v
  run-Safe purges_neighbors s v =
      let (n, failures) = Nb.purge now s.neighbors in
      break_links-Safe node now failures (record s { neighbors = n })
        (with_neighbors-IsSafe node now n s v)
  run-Safe (loses_frame mac) s v =
      let (n, failures) = Nb.process_tx_error now mac s.neighbors in
      break_links-Safe node now failures (record s { neighbors = n })
        (with_neighbors-IsSafe node now n s v)
  run-Safe attaches s v = set_ipv4-IsSafe node now s v
  run-Safe starts s v = start-IsSafe node now s v
  run-Safe disposes s v = do_dispose-IsSafe node s v
  run-Safe (initializes start_time) s v =
      silently-Safe (do_initialize node start_time s) (do_initialize-Safe node start_time s v)
  run-Safe (comes_up i) s v = notify_interface_up-IsSafe node now i s v
  run-Safe (goes_down i) s v =
      silently-Safe (notify_interface_down i s) (notify_interface_down-Safe node i s v)
  run-Safe (adds_address i) s v = notify_add_address-IsSafe node now i s v
  run-Safe (removes_address i address) s v = notify_remove_address-IsSafe node now i address s v

-- Every state that the node reaches from a safe one, by whatever calls of ns-3, messages and timers,
-- in whatever order, is safe: the table has one route to a destination, under its key; the queue is
-- within its limit and has no packet twice; the counters of requests and of unicast error messages
-- are at most the rate limits.
pub Reach-IsSafe :
    {D : Type 0} ⦃o : Platform D⦄ (node : Node) (s s' : Protocol D) (out : List Output)
    → IsSafe node s
    → Reach node s s' out
    → IsSafe node s'
Reach-IsSafe node s s' out v Reach.begin = v
Reach-IsSafe node s s' out v (Reach.next now call reached there) =
    subst (λ o. OnSome o (λ r. IsSafe node r.0)) there
      (run-Safe node now call _ (Reach-IsSafe node s _ _ v reached))
