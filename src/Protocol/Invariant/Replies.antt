-- ===== src/Protocol/Invariant/Replies.antt =====
-- `RecvReply`, `ProcessHello` and the acknowledgements leave a safe state.
use fp_jaringan_nirkabel.Base.{
  ℕ, ◌==◌, refl, true, some, [], Bool-cases, Option-cases, OnSome-bind, OnSome-if, either_branch,
  ◌+◌, ◌%◌, ◌^◌, inl, inr, ltb, if◌then◌else◌, max_ℤ,
}
use fp_jaringan_nirkabel.AddressMap.{AddressMap, find, erase}
use fp_jaringan_nirkabel.Net.{Time}
use fp_jaringan_nirkabel.Platform.{Platform}
use fp_jaringan_nirkabel.RouteEntry.{
  RoutingTableEntry, valid, is_in_search, new_entry, insert_precursor, set_flag, set_life_time,
  get_life_time,
}
use fp_jaringan_nirkabel.RoutingTable.{
  RoutingTable, purge, lookup_route, lookup_valid_route, if_valid, update,
}
use fp_jaringan_nirkabel.RoutingTable.Invariant.{
  IsValid, purge-IsValid, update-IsValid, add_route-IsValid,
}
use fp_jaringan_nirkabel.RoutingTable.Alternatives.{add_multipath_route}
use fp_jaringan_nirkabel.Packet.Rrep as Rrep
use fp_jaringan_nirkabel.Packet.Rrep.{RrepHeader, get_ack_required}
use fp_jaringan_nirkabel.Routing.{update_forward_route}
use fp_jaringan_nirkabel.Routing.Validity.{update_forward_route-IsValid}
use fp_jaringan_nirkabel.Discovery.{or_default}
use fp_jaringan_nirkabel.Protocol.{
  Node, Protocol, is_my_own_address, table_of, sockets_of, with_table, hello_time, through,
  update_neighbor,
}
use fp_jaringan_nirkabel.Protocol.RecvRequest.{or_previous}
use fp_jaringan_nirkabel.Protocol.Replies.{
  greeting, offer, greeted_table, settled, precursed, acknowledged_header, send_reply_ack,
  recv_reply_ack, process_hello, add_precursor, link_precursors, recv_own_reply, pass_reply_on,
  forward_reply, recv_route_reply, recv_reply,
}
use fp_jaringan_nirkabel.Protocol.Invariant.{
  IsSafe, Safe, like-IsSafe, with_table-IsSafe, ▹-Safe, update_neighbor-Safe,
  send_packet_from_queue-Safe,
}

module _ {D : Type 0} ⦃o : Platform D⦄ (node : Node) (now : Time) where
  send_reply_ack-Safe :
      (neighbor : ℕ) (s : Protocol D)
      → IsSafe node s
      → Safe node (send_reply_ack node now neighbor s)
  unfolding send_reply_ack lookup_route
  send_reply_ack-Safe neighbor s h =
      let iface =
        (or_default node.parameters now
          (find neighbor (purge now (table_of s)).routes)).interface in
      OnSome-bind (λ r. IsSafe node r.0) (through iface (sockets_of s) _) _
        (λ out.
          with_table-IsSafe node (purge now (table_of s)) s (purge-IsValid now (table_of s) h.table)
            h)

  pub recv_reply_ack-IsSafe :
      (neighbor : ℕ) (s : Protocol D) → IsSafe node s → IsSafe node (recv_reply_ack now neighbor s)
  unfolding recv_reply_ack lookup_route
  recv_reply_ack-IsSafe neighbor s h =
      let t = purge now (table_of s) in
      let v = purge-IsValid now (table_of s) h.table in
      elim (Option-cases (find neighbor t.routes)) [
        | inl unknown ↦ rw (unknown, recv_reply_ack) (with_table-IsSafe node t s v h)
        | inr (rt, there) ↦
            rw (there, recv_reply_ack)
              (with_table-IsSafe node (update (set_flag valid rt) t).0 s
                (update-IsValid (set_flag valid rt) t v) h)
      ]

  add_precursor-IsValid :
      (addr precursor : ℕ) (t : RoutingTable D)
      → IsValid t
      → IsValid (add_precursor node now addr precursor t)
  unfolding add_precursor lookup_route
  add_precursor-IsValid addr precursor t v =
      update-IsValid
        (insert_precursor precursor
          (or_default node.parameters now (find addr (purge now t).routes))).0
        (purge now t) (purge-IsValid now t v)

  link_precursors-IsValid :
      (to_origin to_dst : RoutingTableEntry) (t : RoutingTable D)
      → IsValid t
      → IsValid (link_precursors node now to_origin to_dst t)
  unfolding link_precursors
  link_precursors-IsValid to_origin to_dst t v =
      let back = to_origin.route.gateway in
      let ahead = to_dst.route.gateway in
      let to_dst' = (insert_precursor back to_dst).0 in
      let to_origin' = (insert_precursor ahead to_origin).0 in
      let t1 = add_precursor node now ahead back (update to_dst' t).0 in
      add_precursor-IsValid back ahead (update to_origin' t1).0 (
        update-IsValid to_origin' t1
          (add_precursor-IsValid ahead back (update to_dst' t).0 (update-IsValid to_dst' t v)))

  add_multipath_route-IsValid :
      (dst next_hop hops : ℕ) (lifetime : Time) (t : RoutingTable D)
      → IsValid t
      → IsValid (add_multipath_route now dst next_hop hops lifetime t)
  unfolding add_multipath_route
  add_multipath_route-IsValid dst next_hop hops lifetime t v =
      elim (Option-cases (find dst t.multipath)) [
        | inl new ↦ rw (new, add_multipath_route) (record { sorted = v.sorted; keyed = v.keyed })
        | inr (e, there) ↦
            rw (there, add_multipath_route) (record { sorted = v.sorted; keyed = v.keyed })
      ]

  greeted_table-IsValid :
      (h : RrepHeader) (receiver : ℕ) (t : RoutingTable D)
      → IsValid t
      → IsValid (greeted_table node now h receiver t)
  unfolding greeted_table lookup_route
  greeted_table-IsValid h receiver t v = elim (Option-cases (find h.dst (purge now t).routes)) [
    | inl new ↦
        rw (new, greeted_table)
          (add_route-IsValid now
            (new_entry now (node.ip.device_of receiver) h.dst true h.dst_seq_no
              (node.ip.interface_of receiver) 1 h.dst (Rrep.get_life_time node.clock h))
            (purge now t) (purge-IsValid now t v))
    | inr (rt, there) ↦
        rw (there, greeted_table)
          (update-IsValid (greeting node now h receiver rt) (purge now t) (purge-IsValid now t v))
  ]

  process_hello-Safe :
      (h : RrepHeader) (receiver : ℕ) (s : Protocol D)
      → IsSafe node s
      → Safe node (process_hello node now h receiver s)
  unfolding process_hello
  process_hello-Safe h receiver s v =
      let t = greeted_table node now h receiver (table_of s) in
      let v1 =
        with_table-IsSafe node t s (greeted_table-IsValid h receiver (table_of s) v.table) v in
      OnSome-if (λ r. IsSafe node r.0) node.enable_hello
        (update_neighbor node now h.dst (hello_time node) (with_table t s)) _
        (update_neighbor-Safe node now h.dst (hello_time node) (with_table t s) v1) v1

  with_timers-IsSafe :
      (timers : AddressMap Time) (s : Protocol D)
      → IsSafe node s
      → IsSafe node (record s { discovery = record s.discovery { address_req_timer = timers } })
  with_timers-IsSafe timers s h =
      like-IsSafe node s
        (record s { discovery = record s.discovery { address_req_timer = timers } }) refl refl refl
        refl h

  recv_own_reply-Safe :
      (offered to_dst : RoutingTableEntry) (s : Protocol D)
      → IsSafe node s
      → Safe node (recv_own_reply node now offered to_dst s)
  unfolding recv_own_reply lookup_route settled
  recv_own_reply-Safe offered to_dst s h =
      let dst = offered.route.destination in
      let s1 = settled offered to_dst s in
      let h1 : IsSafe node s1 = elim (Bool-cases (is_in_search to_dst.flag)) [
        | inl searching ↦ rw searching (
            with_timers-IsSafe (erase dst s.discovery.address_req_timer)
              (with_table (update offered (table_of s)).0 s)
              (with_table-IsSafe node (update offered (table_of s)).0 s
                (update-IsValid offered (table_of s) h.table) h))
        | inr idle ↦ rw idle h
      ] in
      let t = purge now (table_of s1) in
      send_packet_from_queue-Safe node now dst (or_previous to_dst (find dst t.routes)).route
        (with_table t s1)
        (with_table-IsSafe node t s1 (purge-IsValid now (table_of s1) h1.table) h1)

  pass_reply_on-Safe :
      (h : RrepHeader) (sender ttl : ℕ) (to_origin : RoutingTableEntry) (s : Protocol D)
      → IsSafe node s
      → Safe node (pass_reply_on node now h sender ttl to_origin s)
  unfolding pass_reply_on
  pass_reply_on-Safe h sender ttl to_origin s v =
      let t =
        add_multipath_route now h.dst sender h.hop_count node.active_route_timeout (table_of s) in
      let added =
        with_table-IsSafe node t s
          (add_multipath_route-IsValid h.dst sender h.hop_count node.active_route_timeout
            (table_of s) v.table)
          v in
      OnSome-if (λ r. IsSafe node r.0) (ltb ttl 2) _ _ v
        (OnSome-bind (λ r. IsSafe node r.0) (through to_origin.interface (sockets_of s) _) _
          (λ out. either_branch (IsSafe node) s.multipath_enabled (with_table t s) s added v))

  precursed-IsValid :
      (dst : ℕ) (to_origin : RoutingTableEntry) (t : RoutingTable D)
      → IsValid t
      → IsValid (precursed node now dst to_origin t)
  unfolding precursed lookup_valid_route lookup_route
  precursed-IsValid dst to_origin t v =
      let t1 = purge now (update to_origin t).0 in
      let v1 = purge-IsValid now (update to_origin t).0 (update-IsValid to_origin t v) in
      elim (Option-cases (if_valid (find dst t1.routes))) [
        | inl no_route ↦ rw (no_route, precursed) v1
        | inr (to_dst, there) ↦
            rw (there, precursed) (link_precursors-IsValid to_origin to_dst t1 v1)
      ]

  forward_reply-Safe :
      (h : RrepHeader) (sender ttl : ℕ) (s : Protocol D)
      → IsSafe node s
      → Safe node (forward_reply node now h sender ttl s)
  unfolding forward_reply lookup_route
  forward_reply-Safe h sender ttl s v =
      let t = purge now (table_of s) in
      let valid_t = purge-IsValid now (table_of s) v.table in
      let v1 = with_table-IsSafe node t s valid_t v in
      elim (Option-cases (find h.origin t.routes)) [
        | inl unknown ↦ rw (unknown, forward_reply) v1
        | inr (rt, there) ↦
            let to_origin =
              set_life_time now (max_ℤ node.active_route_timeout (get_life_time now rt)) rt in
            rw (there, forward_reply)
              (OnSome-if (λ r. IsSafe node r.0) (is_in_search rt.flag) _
                (pass_reply_on node now h sender ttl to_origin
                  (with_table (precursed node now h.dst to_origin t) s))
                v1
                (pass_reply_on-Safe h sender ttl to_origin _ (
                  with_table-IsSafe node (precursed node now h.dst to_origin t) s
                    (precursed-IsValid h.dst to_origin t valid_t) v)))
      ]

  recv_route_reply-Safe :
      (h : RrepHeader) (receiver sender ttl : ℕ) (s : Protocol D)
      → IsSafe node s
      → Safe node (recv_route_reply node now h receiver sender ttl s)
  unfolding recv_route_reply
  recv_route_reply-Safe h receiver sender ttl s v =
      let offered = offer node now h receiver sender in
      let t = update_forward_route now offered (table_of s) in
      let v1 =
        with_table-IsSafe node t s (update_forward_route-IsValid now offered (table_of s) v.table)
          v in
      let to_dst = or_default node.parameters now (lookup_route now h.dst (table_of s)).1 in
      ▹-Safe node
        (if get_ack_required h
          then send_reply_ack node now sender (with_table t s)
          else some (with_table t s, []))
        _
        (OnSome-if (λ r. IsSafe node r.0) (get_ack_required h) _ _
          (send_reply_ack-Safe sender (with_table t s) v1) v1)
        (λ s' v'.
          OnSome-if (λ r. IsSafe node r.0) (is_my_own_address h.origin (sockets_of s'))
            (recv_own_reply node now offered to_dst s')
            (forward_reply node now (acknowledged_header h) sender ttl s')
            (recv_own_reply-Safe offered to_dst s' v')
            (forward_reply-Safe (acknowledged_header h) sender ttl s' v'))

  -- Every branch of `RecvReply`.
  pub recv_reply-Safe :
      (h : RrepHeader) (receiver sender ttl : ℕ) (s : Protocol D)
      → IsSafe node s
      → Safe node (recv_reply node now h receiver sender ttl s)
  unfolding recv_reply
  recv_reply-Safe h receiver sender ttl s v =
      let h' : RrepHeader = record h { hop_count = (h.hop_count + 1) % 2 ^ 8 } in
      OnSome-if (λ r. IsSafe node r.0) (h'.dst == h'.origin) (process_hello node now h' receiver s)
        (recv_route_reply node now h' receiver sender ttl s) (process_hello-Safe h' receiver s v)
        (recv_route_reply-Safe h' receiver sender ttl s v)
