-- ===== src/Protocol/Requests.antt =====
-- Route requests that arrive: `RecvRequest`, `SendReply` and `SendReplyByIntermediateNode` of
-- aodv-routing-protocol.cc. The acknowledgement timer that the last sets up on a local copy of an
-- entry is given up with the copy.
use fp_jaringan_nirkabel.Base.{
  ℕ, ◌+◌, ◌-◌, ◌%◌, ◌^◌, ◌==◌, ◌&&◌, ◌||◌, not, ltb, Bool, true, false, Option, none, some, List,
  [], ◌∷◌, ◌++◌, if◌then◌else◌, map, ◌>>=◌,
}
use fp_jaringan_nirkabel.Net.{Time}
use fp_jaringan_nirkabel.Platform.{Platform}
use fp_jaringan_nirkabel.RouteEntry.{
  RoutingTableEntry, InterfaceAddress, valid, new_entry, insert_precursor, get_life_time,
  set_life_time, set_valid_seq_no, set_seq_no, set_flag, set_output_device, set_interface, set_hop,
  set_next_hop,
}
use fp_jaringan_nirkabel.RoutingTable.{RoutingTable, lookup_route, add_route, update}
use fp_jaringan_nirkabel.Packet.Rreq.{RreqHeader, get_unknown_seqno}
use fp_jaringan_nirkabel.Packet.Rrep.{RrepHeader, new_header, set_ack_required}
use fp_jaringan_nirkabel.Discovery.{Event, broadcast, bcast_destination, bcast_time}
use fp_jaringan_nirkabel.Protocol.{
  Node, Protocol, Output, issued, replied, through, table_of, sockets_of, with_table,
}

-- `int32_t(a) - int32_t(b) >= 0`
unfoldable pub is_current : ℕ → ℕ → Bool
is_current a b = ltb ((a + 2 ^ 32 - b) % 2 ^ 32) (2 ^ 31)

-- The sequence number is raised only where the request asks for the next one.
unfoldable pub reply_seq_no : ℕ → RreqHeader → ℕ
unfolding get_unknown_seqno
reply_seq_no seq_no h =
    let next = (seq_no + 1) % 2 ^ 32 in
    if not (get_unknown_seqno h) && h.dst_seq_no == next then next else seq_no

-- The entry of the node that a request came from, as the request changes it.
unfoldable pub requested_neighbor : Node → Time → ℕ → ℕ → ℕ → RoutingTableEntry → RoutingTableEntry
unfolding set_life_time set_valid_seq_no set_seq_no set_flag set_output_device set_interface set_hop
    set_next_hop
requested_neighbor node now seq_no src receiver e = set_next_hop src (
    set_hop 1 (
      set_interface (node.ip.interface_of receiver) (
        set_output_device (node.ip.device_of receiver) (
          set_flag valid (
            set_seq_no seq_no
              (set_valid_seq_no false (set_life_time now node.active_route_timeout e)))))))

-- The request is sent on with the time to live that is left.
unfoldable pub rebroadcast : ℕ → RreqHeader → List (ℕ × InterfaceAddress) → List Event
unfolding bcast_destination
rebroadcast ttl h [] = []
rebroadcast ttl h ((socket, iface) ∷ ss) =
    broadcast socket h (ttl - 1) (bcast_destination iface) ∷ rebroadcast ttl h ss

-- A route that this node may announce, to the number that the request knows.
unfoldable pub is_fresh : RreqHeader → RoutingTableEntry → Bool
unfolding get_unknown_seqno is_current
is_fresh h to_dst =
    (get_unknown_seqno h || is_current to_dst.seq_no h.dst_seq_no) && to_dst.valid_seq_no

-- A reply that announces the route `to`, as it is known here, along the route `back`.
unfoldable pub announcement : Node → Time → RoutingTableEntry → RoutingTableEntry → RrepHeader
unfolding new_header get_life_time
announcement node now to back =
    new_header node.clock 0 (to.hops % 2 ^ 8) to.route.destination to.seq_no back.route.destination
      (get_life_time now to)

unfoldable pub reply_along : RoutingTableEntry → RrepHeader → Output
reply_along back h = replied back.interface h (back.hops % 2 ^ 8) back.route.gateway

-- The reply to the origin, which asks a neighbour of the destination for an acknowledgement, and the
-- gratuitous one to the destination.
unfoldable pub intermediate_replies :
    Node
    → Time
    → RoutingTableEntry
    → RoutingTableEntry
    → Bool
    → List (ℕ × InterfaceAddress)
    → Option (List Output)
unfolding announcement set_ack_required reply_along through
intermediate_replies node now to_dst to_origin grat_rep ss = do
  let h = announcement node now to_dst to_origin
  let reply = if to_dst.hops == 1 then set_ack_required true h else h
  out ← through to_origin.interface ss (reply_along to_origin reply ∷ [])
  more ←
      if grat_rep
      then through to_dst.interface ss
          (reply_along to_dst (announcement node now to_origin to_dst) ∷ [])
      else some []
  some (out ++ more)

module _ {D : Type 0} ⦃o : Platform D⦄ where
  unfoldable pub send_reply :
      Node → RreqHeader → RoutingTableEntry → Protocol D → Option (Protocol D × List Output)
  unfolding reply_seq_no new_header reply_along through
  send_reply node h to_origin s = do
    let seq_no = reply_seq_no s.discovery.seq_no h
    let reply =
        new_header node.clock 0 0 h.dst seq_no to_origin.route.destination node.my_route_timeout
    out ← through to_origin.interface (sockets_of s) (reply_along to_origin reply ∷ [])
    some (record s { discovery = record s.discovery { seq_no = seq_no } }, out)

  -- Each of the two routes gets the other's next hop as a precursor.
  unfoldable pub linked :
      Time → RoutingTableEntry → RoutingTableEntry → RoutingTable D → RoutingTable D
  unfolding lookup_route insert_precursor update
  linked now to_dst to_origin t =
      let t1 = if to_dst.hops == 1 then (lookup_route now to_origin.route.gateway t).0 else t in
      let to_dst' = (insert_precursor to_origin.route.gateway to_dst).0 in
      let to_origin' = (insert_precursor to_dst.route.gateway to_origin).0 in
      (update to_origin' (update to_dst' t1).0).0

  unfoldable pub send_reply_by_intermediate_node :
      Node
      → Time
      → RoutingTableEntry
      → RoutingTableEntry
      → Bool
      → Protocol D
      → Option (Protocol D × List Output)
  unfolding linked intermediate_replies
  send_reply_by_intermediate_node node now to_dst to_origin grat_rep s = do
    out ← intermediate_replies node now to_dst to_origin grat_rep (sockets_of s)
    some (with_table (linked now to_dst to_origin (table_of s)) s, out)

  unfoldable pub update_requested_neighbor :
      Node → Time → ℕ → ℕ → ℕ → RoutingTable D → RoutingTable D
  unfolding lookup_route add_route new_entry requested_neighbor update
  update_requested_neighbor node now seq_no src receiver t =
      let (t1, found) = lookup_route now src t in
      elim found [
        | none ↦
            (add_route now
              (new_entry now (node.ip.device_of receiver) src false seq_no
                (node.ip.interface_of receiver) 1 src node.active_route_timeout)
              t1).0
        | some to_neighbor ↦
            (update (requested_neighbor node now seq_no src receiver to_neighbor) t1).0
      ]

  -- The end of `RecvRequest`, which sends the request on.
  unfoldable pub pass_on : Time → ℕ → RreqHeader → Protocol D → Protocol D × List Output
  unfolding rebroadcast bcast_time
  pass_on now ttl h s = if ltb ttl 2 then (s, []) else (
    record s {
      discovery = record s.discovery {
        last_bcast_time = bcast_time now (sockets_of s) s.discovery.last_bcast_time;
      };
    },
    map issued (rebroadcast ttl h (sockets_of s)),
  )
