-- ===== src/Protocol/Invariant/Requests.antt =====
-- `RecvRequest` leaves a safe state.
use fp_jaringan_nirkabel.Base.{
  ℕ, ◌==◌, ◌&&◌, refl, not, Bool, false, Bool-cases, Option-cases, if◌then◌else◌, OnSome-bind, inl,
  inr, ltb,
}
use fp_jaringan_nirkabel.AddressMap.{find}
use fp_jaringan_nirkabel.Net.{Time}
use fp_jaringan_nirkabel.Platform.{Platform}
use fp_jaringan_nirkabel.RouteEntry.{RoutingTableEntry, is_valid, new_entry, insert_precursor}
use fp_jaringan_nirkabel.RoutingTable.{RoutingTable, purge, lookup_route, update}
use fp_jaringan_nirkabel.RoutingTable.Invariant.{
  IsValid, purge-IsValid, update-IsValid, add_route-IsValid,
}
use fp_jaringan_nirkabel.IdCache.{IdCache, is_duplicate}
use fp_jaringan_nirkabel.Packet.Rreq.{RreqHeader, get_destination_only, get_gratuitous_rrep}
use fp_jaringan_nirkabel.Routing.Validity.{update_reverse_route-IsValid}
use fp_jaringan_nirkabel.Protocol.{
  Node, Protocol, is_my_own_address, table_of, sockets_of, with_table, hello_time, through,
  update_neighbor,
}
use fp_jaringan_nirkabel.Protocol.Requests.{
  is_fresh, linked, intermediate_replies, requested_neighbor, reply_seq_no, send_reply,
  send_reply_by_intermediate_node, update_requested_neighbor, pass_on,
}
use fp_jaringan_nirkabel.Protocol.RecvRequest.{
  is_blacklisted, counted_hop, to_origin_variable, or_previous, informed, answer_or_pass_on, answer,
  learn, recv_new_request, recv_request,
}
use fp_jaringan_nirkabel.Protocol.Invariant.{
  IsSafe, Safe, like-IsSafe, with_table-IsSafe, ▹-Safe, update_neighbor-Safe,
}

module _ {D : Type 0} (node : Node) where
  -- The discovery's members that a request writes beside the table.
  noted-IsSafe :
      (c : IdCache) (seq_no : ℕ) (last : Time) (s : Protocol D)
      → IsSafe node s
      → IsSafe node (record s {
        discovery = record s.discovery { id_cache = c; seq_no = seq_no; last_bcast_time = last };
      })
  noted-IsSafe c seq_no last s h =
      like-IsSafe node s
        (record s {
          discovery = record s.discovery { id_cache = c; seq_no = seq_no; last_bcast_time = last };
        })
        refl refl refl refl h

module _ {D : Type 0} ⦃o : Platform D⦄ (node : Node) (now : Time) where
  pass_on-IsSafe :
      (ttl : ℕ) (h : RreqHeader) (s : Protocol D)
      → IsSafe node s
      → IsSafe node (pass_on now ttl h s).0
  unfolding pass_on
  pass_on-IsSafe ttl h s v = elim (Bool-cases (ltb ttl 2)) [
    | inl last ↦ rw last v
    | inr further ↦ rw further (noted-IsSafe node s.discovery.id_cache s.discovery.seq_no _ s v)
  ]

  send_reply-Safe :
      (h : RreqHeader) (to_origin : RoutingTableEntry) (s : Protocol D)
      → IsSafe node s
      → Safe node (send_reply node h to_origin s)
  unfolding send_reply through
  send_reply-Safe h to_origin s v =
      let seq_no = reply_seq_no s.discovery.seq_no h in
      OnSome-bind (λ r. IsSafe node r.0) (through to_origin.interface (sockets_of s) _) _
        (λ out. noted-IsSafe node s.discovery.id_cache seq_no s.discovery.last_bcast_time s v)

  linked-IsValid :
      (to_dst to_origin : RoutingTableEntry) (t : RoutingTable D)
      → IsValid t
      → IsValid (linked now to_dst to_origin t)
  unfolding linked lookup_route
  linked-IsValid to_dst to_origin t v =
      let to_dst' = (insert_precursor to_origin.route.gateway to_dst).0 in
      let to_origin' = (insert_precursor to_dst.route.gateway to_origin).0 in
      let t1 = if to_dst.hops == 1 then (lookup_route now to_origin.route.gateway t).0 else t in
      let v1 : IsValid t1 = elim (Bool-cases (to_dst.hops == 1)) [
        | inl near ↦ rw near (purge-IsValid now t v)
        | inr far ↦ rw far v
      ] in
      update-IsValid to_origin' (update to_dst' t1).0 (update-IsValid to_dst' t1 v1)

  intermediate-Safe :
      (to_dst to_origin : RoutingTableEntry) (grat_rep : Bool) (s : Protocol D)
      → IsSafe node s
      → Safe node (send_reply_by_intermediate_node node now to_dst to_origin grat_rep s)
  unfolding send_reply_by_intermediate_node
  intermediate-Safe to_dst to_origin grat_rep s v =
      OnSome-bind (λ r. IsSafe node r.0)
        (intermediate_replies node now to_dst to_origin grat_rep (sockets_of s)) _
        (λ out.
          with_table-IsSafe node (linked now to_dst to_origin (table_of s)) s
            (linked-IsValid to_dst to_origin (table_of s) v.table) v)

  update_requested_neighbor-IsValid :
      (seq_no src receiver : ℕ) (t : RoutingTable D)
      → IsValid t
      → IsValid (update_requested_neighbor node now seq_no src receiver t)
  unfolding update_requested_neighbor lookup_route
  update_requested_neighbor-IsValid seq_no src receiver t v =
      elim (Option-cases (find src (purge now t).routes)) [
        | inl new ↦
            rw (new, update_requested_neighbor)
              (add_route-IsValid now
                (new_entry now (node.ip.device_of receiver) src false seq_no
                  (node.ip.interface_of receiver) 1 src node.active_route_timeout)
                (purge now t) (purge-IsValid now t v))
        | inr (rt, there) ↦
            rw (there, update_requested_neighbor)
              (update-IsValid (requested_neighbor node now seq_no src receiver rt) (purge now t)
                (purge-IsValid now t v))
      ]

  answer_or_pass_on-Safe :
      (h : RreqHeader) (src ttl : ℕ) (to_origin : RoutingTableEntry) (s : Protocol D)
      → IsSafe node s
      → Safe node (answer_or_pass_on node now h src ttl to_origin s)
  unfolding answer_or_pass_on lookup_route
  answer_or_pass_on-Safe h src ttl to_origin s v =
      let t = purge now (table_of s) in
      let s1 = with_table t s in
      let valid = purge-IsValid now (table_of s) v.table in
      let v1 = with_table-IsSafe node t s valid v in
      elim (Option-cases (find h.dst t.routes)) [
        | inl unknown ↦ rw (unknown, answer_or_pass_on) (pass_on-IsSafe ttl h s1 v1)
        | inr (to_dst, there) ↦ elim (Bool-cases (to_dst.route.gateway == src)) [
          | inl loop ↦ rw (there, answer_or_pass_on, loop) v1
          | inr other ↦ elim (Bool-cases (not (is_fresh h to_dst))) [
            | inl stale ↦ rw (there, answer_or_pass_on, other, stale) (pass_on-IsSafe ttl h s1 v1)
            | inr fresh ↦ elim (Bool-cases (not (get_destination_only h) && is_valid to_dst.flag)) [
              | inl replies ↦
                  rw (there, answer_or_pass_on, other, fresh, replies)
                    (intermediate-Safe to_dst
                      (or_previous to_origin (find h.origin (purge now t).routes))
                      (get_gratuitous_rrep h) (with_table (purge now t) s)
                      (with_table-IsSafe node (purge now t) s (purge-IsValid now t valid) v))
              | inr passes ↦
                  rw (there, answer_or_pass_on, other, fresh, passes)
                    (pass_on-IsSafe ttl (informed h to_dst) s1 v1)
            ]
          ]
        ]
      ]

  answer-Safe :
      (h : RreqHeader) (src ttl : ℕ) (to_origin : RoutingTableEntry) (s : Protocol D)
      → IsSafe node s
      → Safe node (answer node now h src ttl to_origin s)
  unfolding answer lookup_route
  answer-Safe h src ttl to_origin s v = elim (Bool-cases (is_my_own_address h.dst (sockets_of s))) [
    | inl mine ↦
        let t = purge now (table_of s) in
        rw mine (
          send_reply-Safe h (or_previous to_origin (find h.origin t.routes)) (with_table t s)
            (with_table-IsSafe node t s (purge-IsValid now (table_of s) v.table) v))
    | inr foreign ↦ rw foreign (answer_or_pass_on-Safe h src ttl to_origin s v)
  ]

  learn-IsValid :
      (h : RreqHeader) (receiver src : ℕ) (t : RoutingTable D)
      → IsValid t
      → IsValid (learn node now h receiver src t)
  unfolding learn
  learn-IsValid h receiver src t v =
      let p = node.parameters in
      update_requested_neighbor-IsValid h.origin_seq_no src receiver _ (
        update_reverse_route-IsValid node.ip now p.net_traversal_time p.node_traversal_time h.origin
          h.origin_seq_no h.hop_count src receiver t v)

  recv_new_request-Safe :
      (h : RreqHeader) (receiver src ttl : ℕ) (s : Protocol D)
      → IsSafe node s
      → Safe node (recv_new_request node now h receiver src ttl s)
  unfolding recv_new_request
  recv_new_request-Safe h receiver src ttl s v =
      let h' = counted_hop h in
      let t = learn node now h' receiver src (table_of s) in
      ▹-Safe node (update_neighbor node now src (hello_time node) (with_table t s)) _
        (update_neighbor-Safe node now src (hello_time node) (with_table t s)
          (with_table-IsSafe node t s (learn-IsValid h' receiver src (table_of s) v.table) v))
        (answer-Safe h' src ttl
          (to_origin_variable node now h' receiver src (lookup_route now h.origin (table_of s)).1))

  -- Every branch of `RecvRequest`.
  pub recv_request-Safe :
      (h : RreqHeader) (receiver src ttl : ℕ) (s : Protocol D)
      → IsSafe node s
      → Safe node (recv_request node now h receiver src ttl s)
  unfolding recv_request lookup_route
  recv_request-Safe h receiver src ttl s v =
      let t = purge now (table_of s) in
      let v1 = with_table-IsSafe node t s (purge-IsValid now (table_of s) v.table) v in
      let (c, duplicate) = is_duplicate now h.origin h.request_id s.discovery.id_cache in
      let v2 =
        noted-IsSafe node c s.discovery.seq_no s.discovery.last_bcast_time (with_table t s) v1 in
      elim (Bool-cases (is_blacklisted (find src t.routes))) [
        | inl ignored ↦ rw ignored v1
        | inr heard ↦ elim (Bool-cases duplicate) [
          | inl again ↦ rw (heard, again) v2
          | inr new ↦ rw (heard, new) (recv_new_request-Safe h receiver src ttl _ v2)
        ]
      ]
