-- ===== src/Protocol/Forwarding.antt =====
-- Data packets: `RouteOutput`, `LoopbackRoute` and `Forwarding` of aodv-routing-protocol.cc. The
-- Boolean result of the last stands behind the outputs.
use fp_jaringan_nirkabel.Base.{
  ℕ, ℤ, ◌==◌, ◌&&◌, ◌||◌, not, Bool, true, false, Option, none, some, List, [], ◌∷◌, if◌then◌else◌,
  negsuc, ◌>>=◌,
}
use fp_jaringan_nirkabel.Net.{Time, Packet, Ipv4Header}
use fp_jaringan_nirkabel.Platform.{Platform}
use fp_jaringan_nirkabel.RouteEntry.{InterfaceAddress, Ipv4Route, is_valid}
use fp_jaringan_nirkabel.RoutingTable.{RoutingTable, purge, lookup_route, lookup_valid_route}
use fp_jaringan_nirkabel.Routing.{update_route_life_time}
use fp_jaringan_nirkabel.Discovery.{or_default}
use fp_jaringan_nirkabel.Errors.Broken.{send_rerr_when_no_route_to_forward}
use fp_jaringan_nirkabel.Protocol.{
  Node, Protocol, Output, forwarded, dropped, delivered, is_same_interface, table_of, sockets_of,
  with_table, ◌▹◌, reporter, report, update_neighbor,
}

-- What `RouteOutput` returns, with `ERROR_NOROUTETOHOST` in `sockerr`, and the packet's tag.
pub record Answer : Type 0 where
  pub route : Option Ipv4Route
  pub no_route_to_host : Bool
  pub packet : Option Packet

-- The first address of the sockets, on the device if one is asked for.
unfoldable pub source_address : Node → Option ℕ → List (ℕ × InterfaceAddress) → Option ℕ
source_address node oif [] = none
source_address node none ((_, iface) ∷ ss) = some iface.local
source_address node (some dev) ((_, iface) ∷ ss) =
    if dev == node.ip.device_of iface.local
    then some iface.local
    else source_address node (some dev) ss

-- `none` where the assertion on the source fails, or there is no socket at all.
unfoldable pub loopback_route :
    Node → Ipv4Header → Option ℕ → List (ℕ × InterfaceAddress) → Option Ipv4Route
unfolding source_address
loopback_route node header oif ss = do
  source ← source_address node oif ss
  if source == node.parameters.default_address
      then none
      else some record {
        destination = header.destination;
        gateway = 2130706433;
        source = source;
        output_device = node.loopback;
      }

unfoldable pub tag_packet : Node → Option ℕ → Packet → Packet
tag_packet node oif p = elim p.deferred_tag [
  | none ↦ record p {
    deferred_tag = some (elim oif [ none ↦ negsuc 0 | some dev ↦ node.interface_for_device dev ]);
  }
  | some interface ↦ p
]

unfoldable pub is_other_device : Option ℕ → Ipv4Route → Bool
is_other_device none route = false
is_other_device (some dev) route = not (route.output_device == dev)

-- The packet that is to be delivered locally, or handed to the error callback where there is no
-- callback for that.
unfoldable pub deliver : Bool → ℕ → Packet → Ipv4Header → Output
deliver lcb ecb p header =
    if lcb
    then delivered p header
    else dropped (record { callback = ecb; packet = p; header = header })

unfoldable pub is_broadcast_on : Node → ℤ → ℕ → ℕ × InterfaceAddress → Bool
unfolding is_same_interface
is_broadcast_on node iif dst (_, iface) =
    is_same_interface (node.interface_for_address iface.local) iif
    && (dst == iface.broadcast || dst == 4294967295)

-- A message of the protocol itself: UDP to its port.
unfoldable pub is_aodv : Node → Packet → Ipv4Header → Bool
is_aodv node p header = header.protocol == 17 && node.udp_port p == 654

module _ {D : Type 0} ⦃o : Platform D⦄ where
  abbrev pub touch : Node → Time → ℕ → RoutingTable D → RoutingTable D
  touch node now addr t = (update_route_life_time now addr node.active_route_timeout t).0

  abbrev pub answering :
      Bool → Option (Protocol D × List Output) → Option (Protocol D × List Output × Bool)
  answering b none = none
  answering b (some (s, out)) = some (s, out, b)

  unfoldable pub route_output :
      Node
      → Time
      → Option Packet
      → Ipv4Header
      → Option ℕ
      → Protocol D
      → Option (Protocol D × Answer)
  unfolding loopback_route lookup_valid_route update_route_life_time is_other_device tag_packet
  route_output node now none header oif s = do
    route ← loopback_route node header oif (sockets_of s)
    some (s, record { route = some route; no_route_to_host = false; packet = none })
  route_output node now (some p) header oif s = elim (sockets_of s) [
    | [] ↦ some (s, record { route = none; no_route_to_host = true; packet = some p })
    | socket ∷ ss ↦
        let (t, found) = lookup_valid_route now header.destination (table_of s) in
        elim found [
          | some rt ↦
              if is_other_device oif rt.route
              then some (
                with_table t s,
                record { route = none; no_route_to_host = true; packet = some p },
              )
              else some (
                with_table (touch node now rt.route.gateway (touch node now header.destination t))
                    s,
                record { route = some rt.route; no_route_to_host = false; packet = some p },
              )
          | none ↦ do
            route ← loopback_route node header oif (socket ∷ ss)
            some (
              with_table t s,
              record {
                route = some route;
                no_route_to_host = false;
                packet = some (tag_packet node oif p);
              },
            )
        ]
  ]

  unfoldable pub no_route : Node → Time → ℕ → ℕ → ℕ → Protocol D → Option (Protocol D × List Output)
  unfolding send_rerr_when_no_route_to_forward reporter
  no_route node now dst seq_no origin s =
      report s (send_rerr_when_no_route_to_forward now dst seq_no origin (reporter node s))

  -- The life times that a forwarded packet renews, with the next hop towards its source.
  unfoldable pub renew : Node → Time → Ipv4Header → Ipv4Route → RoutingTable D → RoutingTable D × ℕ
  unfolding update_route_life_time lookup_route or_default
  renew node now header route t =
      let t1 =
        touch node now route.gateway
          (touch node now header.destination (touch node now header.source t)) in
      let (t2, found) = lookup_route now header.source t1 in
      let next_hop = (or_default node.parameters now found).route.gateway in
      (touch node now next_hop t2, next_hop)

  unfoldable pub forward_by :
      Node
      → Time
      → Packet
      → Ipv4Header
      → ℕ
      → Ipv4Route
      → Protocol D
      → Option (Protocol D × List Output)
  unfolding renew update_neighbor
  forward_by node now p header ucb route s =
      let (t, next_hop) = renew node now header route (table_of s) in
      update_neighbor node now route.gateway node.active_route_timeout (with_table t s)
      ▹ update_neighbor node now next_hop node.active_route_timeout
      ▹ λ s'. some (s', forwarded ucb route p header ∷ [])

  unfoldable pub forwarding :
      Node → Time → Packet → Ipv4Header → ℕ → Protocol D → Option (Protocol D × List Output × Bool)
  unfolding purge lookup_route is_valid forward_by no_route
  forwarding node now p header ucb s =
      let (t, found) = lookup_route now header.destination (purge now (table_of s)) in
      let s1 = with_table t s in
      elim found [
        | none ↦ answering false (no_route node now header.destination 0 header.source s1)
        | some to_dst ↦
            if is_valid to_dst.flag
            then answering true (forward_by node now p header ucb to_dst.route s1)
            else if to_dst.valid_seq_no
            then answering false
                (no_route node now header.destination to_dst.seq_no header.source s1)
            else answering false (no_route node now header.destination 0 header.source s1)
      ]
