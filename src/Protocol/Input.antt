-- ===== src/Protocol/Input.antt =====
-- `RouteInput` of aodv-routing-protocol.cc: a packet from a device, delivered, forwarded or put off.
use fp_jaringan_nirkabel.Base.{
  ℕ, ◌==◌, ◌&&◌, ◌||◌, not, ltb, Bool, true, false, Option, none, some, List, [], ◌∷◌,
  if◌then◌else◌, any,
}
use fp_jaringan_nirkabel.Net.{Time, Packet, Ipv4Header}
use fp_jaringan_nirkabel.Platform.{Platform}
use fp_jaringan_nirkabel.RouteEntry.{RoutingTableEntry}
use fp_jaringan_nirkabel.RoutingTable.{lookup_route, lookup_valid_route}
use fp_jaringan_nirkabel.IdCache.{is_duplicate_packet}
use fp_jaringan_nirkabel.Routing.{update_route_life_time}
use fp_jaringan_nirkabel.Protocol.{
  Node, Protocol, Output, forwarded, dropped, is_my_own_address, table_of, sockets_of, with_table,
  ◌▹◌, update_neighbor,
}
use fp_jaringan_nirkabel.Protocol.Queueing.{deferred_route_output}
use fp_jaringan_nirkabel.Protocol.Forwarding.{
  touch, answering, deliver, is_broadcast_on, is_aodv, forwarding,
}

unfoldable pub has_tag : Packet → Bool
has_tag p = elim p.deferred_tag [ none ↦ false | some interface ↦ true ]

-- A broadcast packet is not passed on: by the attribute, as the protocol's own, or by its time to
-- live.
unfoldable pub stays : Node → Packet → Ipv4Header → Bool
unfolding is_aodv
stays node p header = not node.enable_broadcast || is_aodv node p header || not (ltb 1 header.ttl)

unfoldable pub forwarded_by : Packet → Ipv4Header → ℕ → Option RoutingTableEntry → List Output
forwarded_by p header ucb none = []
forwarded_by p header ucb (some to) = forwarded ucb to.route p header ∷ []

module _ {D : Type 0} ⦃o : Platform D⦄ where
  -- The packet is a broadcast on the interface that it came from.
  unfoldable pub broadcast_input :
      Node → Time → Packet → Ipv4Header → ℕ → Bool → ℕ → Protocol D → Protocol D × List Output
  unfolding is_duplicate_packet update_route_life_time deliver stays lookup_route forwarded_by
  broadcast_input node now p header ucb lcb ecb s =
      let (c, duplicate) = is_duplicate_packet now p header s.packets in
      let s1 : Protocol D = record s { packets = c } in
      let t1 = touch node now header.source (table_of s) in
      let (t2, found) = lookup_route now header.destination t1 in
      if duplicate
      then (s1, [])
      else if stays node p header
      then (with_table t1 s1, deliver lcb ecb p header ∷ [])
      else (with_table t2 s1, deliver lcb ecb p header ∷ forwarded_by p header ucb found)

  -- The life times that a delivered packet renews.
  unfoldable pub renew_origin :
      Node → Time → Ipv4Header → Protocol D → Option (Protocol D × List Output)
  unfolding update_route_life_time lookup_valid_route update_neighbor
  renew_origin node now header s =
      let (t, found) =
        lookup_valid_route now header.source (touch node now header.source (table_of s)) in
      elim found [
        | none ↦ some (with_table t s, [])
        | some to_origin ↦
            update_neighbor node now to_origin.route.gateway node.active_route_timeout
              (with_table (touch node now to_origin.route.gateway t) s)
      ]

  -- The packet is for an address of the node.
  unfoldable pub unicast_input :
      Node → Time → Packet → Ipv4Header → Bool → ℕ → Protocol D → Option (Protocol D × List Output)
  unfolding renew_origin deliver
  unicast_input node now p header lcb ecb s =
      renew_origin node now header s ▹ λ s'. some (s', deliver lcb ecb p header ∷ [])

  unfoldable pub route_input :
      Node
      → Time
      → Packet
      → Ipv4Header
      → (idev : ℕ) → (ucb : ℕ) → (lcb : Bool) → (ecb : ℕ) → Protocol D
      → Option (Protocol D × List Output × Bool)
  unfolding has_tag deferred_route_output is_my_own_address is_broadcast_on broadcast_input
      unicast_input forwarding
  route_input node now p header idev ucb lcb ecb s = elim (sockets_of s) [
    | [] ↦ some (s, [], false)
    | socket ∷ ss ↦
        let iif = node.interface_for_device idev in
        let dst = header.destination in
        if idev == node.loopback && has_tag p
        then answering true (deferred_route_output node now p header ucb ecb s)
        else if is_my_own_address header.source (socket ∷ ss)
        then some (s, [], true)
        else if node.is_multicast dst
        then some (s, [], false)
        else if any (is_broadcast_on node iif dst) (socket ∷ ss)
        then answering true (some (broadcast_input node now p header ucb lcb ecb s))
        else if node.is_destination_address dst iif
        then answering true (unicast_input node now p header lcb ecb s)
        else if node.is_forwarding iif
        then forwarding node now p header ucb s
        else some (s, dropped (record { callback = ecb; packet = p; header = header }) ∷ [], true)
  ]
