-- ===== src/Protocol/Replies.antt =====
-- Route replies that arrive: `RecvReply`, `SendReplyAck`, `RecvReplyAck` and `ProcessHello` of
-- aodv-routing-protocol.cc, for headers that were taken off their packets. `ProcessEnhancedReply`
-- fills a local variable only.
use fp_jaringan_nirkabel.Base.{
  ℕ, ◌+◌, ◌-◌, ◌%◌, ◌^◌, ◌==◌, ltb, true, false, Option, none, some, List, [], ◌∷◌, if◌then◌else◌,
  max_ℤ, ◌>>=◌,
}
use fp_jaringan_nirkabel.AddressMap.{erase}
use fp_jaringan_nirkabel.Net.{Time}
use fp_jaringan_nirkabel.Platform.{Platform}
use fp_jaringan_nirkabel.RouteEntry.{
  RoutingTableEntry, valid, is_in_search, new_entry, insert_precursor, get_life_time, set_life_time,
  set_valid_seq_no, set_seq_no, set_flag, set_output_device, set_interface, set_hop, set_next_hop,
}
use fp_jaringan_nirkabel.RoutingTable.{
  RoutingTable, lookup_route, lookup_valid_route, add_route, update,
}
use fp_jaringan_nirkabel.RoutingTable.Alternatives.{add_multipath_route}
use fp_jaringan_nirkabel.Packet.Rrep as Rrep
use fp_jaringan_nirkabel.Packet.Rrep.{RrepHeader, get_ack_required, set_ack_required}
use fp_jaringan_nirkabel.Routing.{update_forward_route}
use fp_jaringan_nirkabel.Discovery.{or_default}
use fp_jaringan_nirkabel.Protocol.{
  Node, Protocol, Output, replied, acknowledged, through, is_my_own_address, table_of, sockets_of,
  with_table, hello_time, ◌▹◌, update_neighbor,
}
use fp_jaringan_nirkabel.Protocol.Queueing.{send_packet_from_queue}
use fp_jaringan_nirkabel.Protocol.RecvRequest.{or_previous}

-- The entry of a neighbour that says hello.
unfoldable pub greeting : Node → Time → RrepHeader → ℕ → RoutingTableEntry → RoutingTableEntry
unfolding set_life_time get_life_time set_valid_seq_no set_seq_no set_flag set_output_device
    set_interface set_hop set_next_hop hello_time
greeting node now h receiver e = set_next_hop h.dst (
    set_hop 1 (
      set_interface (node.ip.interface_of receiver) (
        set_output_device (node.ip.device_of receiver) (
          set_flag valid (
            set_valid_seq_no true (
              set_seq_no h.dst_seq_no
                (set_life_time now (max_ℤ (hello_time node) (get_life_time now e)) e)))))))

-- The route that a reply offers, whose hop count counts this hop.
unfoldable pub offer : Node → Time → RrepHeader → ℕ → ℕ → RoutingTableEntry
unfolding new_entry Rrep.get_life_time
offer node now h receiver sender =
    new_entry now (node.ip.device_of receiver) h.dst true h.dst_seq_no
      (node.ip.interface_of receiver) h.hop_count sender (Rrep.get_life_time node.clock h)

unfoldable pub acknowledged_header : RrepHeader → RrepHeader
unfolding get_ack_required set_ack_required
acknowledged_header h = if get_ack_required h then set_ack_required false h else h

module _ {D : Type 0} ⦃o : Platform D⦄ where
  unfoldable pub send_reply_ack : Node → Time → ℕ → Protocol D → Option (Protocol D × List Output)
  unfolding lookup_route or_default through
  send_reply_ack node now neighbor s = do
    let (t, found) = lookup_route now neighbor (table_of s)
    let iface = (or_default node.parameters now found).interface
    out ← through iface (sockets_of s) (acknowledged iface neighbor ∷ [])
    some (with_table t s, out)

  unfoldable pub recv_reply_ack : Time → ℕ → Protocol D → Protocol D
  unfolding lookup_route set_flag update
  recv_reply_ack now neighbor s =
      let (t, found) = lookup_route now neighbor (table_of s) in
      elim found [ none ↦ with_table t s | some rt ↦ with_table (update (set_flag valid rt) t).0 s ]

  -- The route to a neighbour that says hello.
  unfoldable pub greeted_table : Node → Time → RrepHeader → ℕ → RoutingTable D → RoutingTable D
  unfolding lookup_route add_route new_entry Rrep.get_life_time greeting update
  greeted_table node now h receiver t =
      let (t1, found) = lookup_route now h.dst t in
      elim found [
        | none ↦
            (add_route now
              (new_entry now (node.ip.device_of receiver) h.dst true h.dst_seq_no
                (node.ip.interface_of receiver) 1 h.dst (Rrep.get_life_time node.clock h))
              t1).0
        | some to_neighbor ↦ (update (greeting node now h receiver to_neighbor) t1).0
      ]

  unfoldable pub process_hello :
      Node → Time → RrepHeader → ℕ → Protocol D → Option (Protocol D × List Output)
  unfolding greeted_table update_neighbor hello_time
  process_hello node now h receiver s =
      let t = greeted_table node now h receiver (table_of s) in
      if node.enable_hello
      then update_neighbor node now h.dst (hello_time node) (with_table t s)
      else some (with_table t s, [])

  -- The entry of an address gets a precursor; where there is none, the variable is a fresh entry.
  unfoldable pub add_precursor : Node → Time → ℕ → ℕ → RoutingTable D → RoutingTable D
  unfolding lookup_route or_default insert_precursor update
  add_precursor node now addr precursor t =
      let (t', found) = lookup_route now addr t in
      (update (insert_precursor precursor (or_default node.parameters now found)).0 t').0

  -- The precursors of a forwarded reply.
  unfoldable pub link_precursors :
      Node → Time → RoutingTableEntry → RoutingTableEntry → RoutingTable D → RoutingTable D
  unfolding insert_precursor update add_precursor
  link_precursors node now to_origin to_dst t =
      let back = to_origin.route.gateway in
      let ahead = to_dst.route.gateway in
      add_precursor node now back ahead (
        (update (insert_precursor ahead to_origin).0
          (add_precursor node now ahead back (update (insert_precursor back to_dst).0 t).0)).0)

  -- The search for the destination ends with the route that is offered.
  unfoldable pub settled : RoutingTableEntry → RoutingTableEntry → Protocol D → Protocol D
  unfolding is_in_search update erase
  settled offered to_dst s =
      if is_in_search to_dst.flag
      then record s {
        discovery = record s.discovery {
          table = (update offered (table_of s)).0;
          address_req_timer = erase offered.route.destination s.discovery.address_req_timer;
        };
      }
      else s

  -- A reply to a request of this node.
  unfoldable pub recv_own_reply :
      Node
      → Time
      → RoutingTableEntry
      → RoutingTableEntry
      → Protocol D
      → Option (Protocol D × List Output)
  unfolding settled lookup_route or_previous send_packet_from_queue
  recv_own_reply node now offered to_dst s =
      let dst = offered.route.destination in
      let s1 = settled offered to_dst s in
      let (t, found) = lookup_route now dst (table_of s1) in
      send_packet_from_queue node now dst (or_previous to_dst found).route (with_table t s1)

  -- The reply goes on along the reverse route, and the path that it took is kept as an alternative.
  unfoldable pub pass_reply_on :
      Node
      → Time
      → RrepHeader
      → ℕ
      → ℕ
      → RoutingTableEntry
      → Protocol D
      → Option (Protocol D × List Output)
  unfolding through add_multipath_route
  pass_reply_on node now h sender ttl to_origin s = if ltb ttl 2 then some (s, []) else do
    out ←
        through to_origin.interface (sockets_of s)
          (replied to_origin.interface h (ttl - 1) to_origin.route.gateway ∷ [])
    some (
      if s.multipath_enabled
          then with_table
              (add_multipath_route now h.dst sender h.hop_count node.active_route_timeout
                (table_of s))
              s
          else s,
      out,
    )

  -- The route to the origin is written, and the precursors where the destination has a valid route.
  unfoldable pub precursed : Node → Time → ℕ → RoutingTableEntry → RoutingTable D → RoutingTable D
  unfolding update lookup_valid_route link_precursors
  precursed node now dst to_origin t =
      let (t1, valid_route) = lookup_valid_route now dst (update to_origin t).0 in
      elim valid_route [ none ↦ t1 | some to_dst ↦ link_precursors node now to_origin to_dst t1 ]

  unfoldable pub forward_reply :
      Node → Time → RrepHeader → ℕ → ℕ → Protocol D → Option (Protocol D × List Output)
  unfolding lookup_route is_in_search set_life_time get_life_time precursed pass_reply_on
  forward_reply node now h sender ttl s =
      let (t, found) = lookup_route now h.origin (table_of s) in
      elim found [
        | none ↦ some (with_table t s, [])
        | some rt ↦
            let to_origin =
              set_life_time now (max_ℤ node.active_route_timeout (get_life_time now rt)) rt in
            if is_in_search rt.flag
            then some (with_table t s, [])
            else pass_reply_on node now h sender ttl to_origin
                (with_table (precursed node now h.dst to_origin t) s)
      ]

  -- Past the test for a hello message; the header counts this hop.
  unfoldable pub recv_route_reply :
      Node → Time → RrepHeader → ℕ → ℕ → ℕ → Protocol D → Option (Protocol D × List Output)
  unfolding offer lookup_route or_default update_forward_route get_ack_required send_reply_ack
      acknowledged_header is_my_own_address recv_own_reply forward_reply
  recv_route_reply node now h receiver sender ttl s =
      let offered = offer node now h receiver sender in
      let to_dst = or_default node.parameters now (lookup_route now h.dst (table_of s)).1 in
      let s1 = with_table (update_forward_route now offered (table_of s)) s in
      (if get_ack_required h then send_reply_ack node now sender s1 else some (s1, [])) ▹ λ s'.
      if is_my_own_address h.origin (sockets_of s')
      then recv_own_reply node now offered to_dst s'
      else forward_reply node now (acknowledged_header h) sender ttl s'

  unfoldable pub recv_reply :
      Node
      → Time
      → RrepHeader
      → (receiver sender ttl : ℕ) → Protocol D
      → Option (Protocol D × List Output)
  unfolding process_hello recv_route_reply
  recv_reply node now h receiver sender ttl s =
      let h' : RrepHeader = record h { hop_count = (h.hop_count + 1) % 2 ^ 8 } in
      if h'.dst == h'.origin
      then process_hello node now h' receiver s
      else recv_route_reply node now h' receiver sender ttl s
