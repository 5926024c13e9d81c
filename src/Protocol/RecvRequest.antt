-- ===== src/Protocol/RecvRequest.antt =====
-- `RecvRequest` of aodv-routing-protocol.cc, for a header that was taken off its packet, with the
-- packet's time to live.
use fp_jaringan_nirkabel.Base.{
  ℕ, ◌+◌, ◌*◌, ◌%◌, ◌^◌, ◌==◌, ◌&&◌, not, Bool, false, Option, none, some, List, [], if◌then◌else◌,
  pos, ◌*ℤ◌, ◌-ℤ◌,
}
use fp_jaringan_nirkabel.Net.{Time}
use fp_jaringan_nirkabel.Platform.{Platform}
use fp_jaringan_nirkabel.RouteEntry.{RoutingTableEntry, is_valid}
use fp_jaringan_nirkabel.RoutingTable.{RoutingTable, lookup_route}
use fp_jaringan_nirkabel.IdCache.{is_duplicate}
use fp_jaringan_nirkabel.Packet.Rreq.{
  RreqHeader, set_unknown_seqno, get_destination_only, get_gratuitous_rrep,
}
use fp_jaringan_nirkabel.Routing.{update_reverse_route, reversed}
use fp_jaringan_nirkabel.Discovery.{or_default}
use fp_jaringan_nirkabel.Protocol.{
  Node, Protocol, Output, is_my_own_address, table_of, sockets_of, with_table, hello_time, ◌▹◌,
  update_neighbor,
}
use fp_jaringan_nirkabel.Protocol.Requests.{
  is_fresh, send_reply, send_reply_by_intermediate_node, update_requested_neighbor, pass_on,
}

unfoldable pub is_blacklisted : Option RoutingTableEntry → Bool
is_blacklisted none = false
is_blacklisted (some to_prev) = to_prev.black_list_state

-- The header with this hop.
unfoldable pub counted_hop : RreqHeader → RreqHeader
counted_hop h = record h { hop_count = (h.hop_count + 1) % 2 ^ 8 }

-- The variable `toOrigin` after the reverse route is written.
unfoldable pub to_origin_variable :
    Node → Time → RreqHeader → ℕ → ℕ → Option RoutingTableEntry → RoutingTableEntry
unfolding or_default reversed
to_origin_variable node now h receiver src none = or_default node.parameters now none
to_origin_variable node now h receiver src (some to_origin) =
    let p = node.parameters in
    reversed node.ip now h.origin_seq_no h.hop_count src receiver
      (pos 2 *ℤ p.net_traversal_time -ℤ pos (2 * h.hop_count) *ℤ p.node_traversal_time) to_origin

-- What a lookup leaves in a variable.
unfoldable pub or_previous : RoutingTableEntry → Option RoutingTableEntry → RoutingTableEntry
or_previous previous none = previous
or_previous previous (some rt) = rt

-- The request knows the destination's number that this node knows.
unfoldable pub informed : RreqHeader → RoutingTableEntry → RreqHeader
unfolding set_unknown_seqno
informed h to_dst = set_unknown_seqno false (record h { dst_seq_no = to_dst.seq_no })

module _ {D : Type 0} ⦃o : Platform D⦄ where
  -- Past the routes to the origin and the neighbour, at a node that is not the destination.
  unfoldable pub answer_or_pass_on :
      Node
      → Time
      → RreqHeader
      → ℕ
      → ℕ
      → RoutingTableEntry
      → Protocol D
      → Option (Protocol D × List Output)
  unfolding lookup_route is_fresh get_destination_only is_valid or_previous get_gratuitous_rrep
      send_reply_by_intermediate_node pass_on informed
  answer_or_pass_on node now h src ttl to_origin s =
      let (t, found) = lookup_route now h.dst (table_of s) in
      let s1 = with_table t s in
      elim found [
        | none ↦ some (pass_on now ttl h s1)
        | some to_dst ↦
            let (t2, again) = lookup_route now h.origin t in
            if to_dst.route.gateway == src
            then some (s1, [])
            else if not (is_fresh h to_dst)
            then some (pass_on now ttl h s1)
            else if not (get_destination_only h) && is_valid to_dst.flag
            then send_reply_by_intermediate_node node now to_dst (or_previous to_origin again)
                (get_gratuitous_rrep h) (with_table t2 s)
            else some (pass_on now ttl (informed h to_dst) s1)
      ]

  unfoldable pub answer :
      Node
      → Time
      → RreqHeader
      → ℕ
      → ℕ
      → RoutingTableEntry
      → Protocol D
      → Option (Protocol D × List Output)
  unfolding is_my_own_address lookup_route or_previous send_reply answer_or_pass_on
  answer node now h src ttl to_origin s =
      let (t, found) = lookup_route now h.origin (table_of s) in
      if is_my_own_address h.dst (sockets_of s)
      then send_reply node h (or_previous to_origin found) (with_table t s)
      else answer_or_pass_on node now h src ttl to_origin s

  -- The routes that a request leaves, with the header past this hop.
  unfoldable pub learn : Node → Time → RreqHeader → ℕ → ℕ → RoutingTable D → RoutingTable D
  unfolding update_reverse_route update_requested_neighbor
  learn node now h receiver src t =
      let p = node.parameters in
      update_requested_neighbor node now h.origin_seq_no src receiver (
        update_reverse_route node.ip now p.net_traversal_time p.node_traversal_time h.origin
          h.origin_seq_no h.hop_count src receiver t)

  -- Past the tests on the blacklist and on duplicates.
  unfoldable pub recv_new_request :
      Node → Time → RreqHeader → ℕ → ℕ → ℕ → Protocol D → Option (Protocol D × List Output)
  unfolding learn counted_hop to_origin_variable lookup_route update_neighbor hello_time answer
  recv_new_request node now h receiver src ttl s =
      let h' = counted_hop h in
      let to_origin =
        to_origin_variable node now h' receiver src (lookup_route now h.origin (table_of s)).1 in
      update_neighbor node now src (hello_time node)
        (with_table (learn node now h' receiver src (table_of s)) s)
      ▹ answer node now h' src ttl to_origin

  unfoldable pub recv_request :
      Node
      → Time
      → RreqHeader
      → (receiver src ttl : ℕ) → Protocol D
      → Option (Protocol D × List Output)
  unfolding lookup_route is_blacklisted is_duplicate recv_new_request
  recv_request node now h receiver src ttl s =
      let (t, prev) = lookup_route now src (table_of s) in
      let s1 = with_table t s in
      let (c, duplicate) = is_duplicate now h.origin h.request_id s.discovery.id_cache in
      let s2 : Protocol D = record s1 { discovery = record s1.discovery { id_cache = c } } in
      if is_blacklisted prev
      then some (s1, [])
      else if duplicate
      then some (s2, [])
      else recv_new_request node now h receiver src ttl s2
