-- ===== src/Routing.antt =====
-- What received messages do to the routing table: parts of `RecvRequest` and `RecvReply`, and
-- `UpdateRouteToNeighbor` and `UpdateRouteLifeTime`, of aodv-routing-protocol.cc.
pub mod SeqNo
pub mod Freshness
pub mod LifeTime
pub mod Validity
mod Tests
use fp_jaringan_nirkabel.Base.{
  ℕ, ◌*◌, ◌==◌, ◌&&◌, ◌||◌, not, ltb, Bool, true, false, none, some, if◌then◌else◌, pos, ◌-ℤ◌, ◌*ℤ◌,
  max_ℤ,
}
use fp_jaringan_nirkabel.Net.{Time}
use fp_jaringan_nirkabel.Platform.{Platform}
use fp_jaringan_nirkabel.RouteEntry.{
  RoutingTableEntry, InterfaceAddress, valid, is_valid, new_entry, set_rreq_cnt, set_life_time,
  get_life_time, set_seq_no, set_valid_seq_no, set_next_hop, set_output_device, set_interface,
  set_hop, set_flag,
}
use fp_jaringan_nirkabel.RoutingTable.{RoutingTable, lookup_route, add_route, update}
use fp_jaringan_nirkabel.Routing.SeqNo.{is_newer}

-- The ns-3 object `m_ipv4`: the device and the first address of the interface that has an address.
pub record Ipv4 : Type 0 where
  pub device_of : ℕ → ℕ
  pub interface_of : ℕ → InterfaceAddress

-- The tests (i) to (iv) of `RecvReply`.
unfoldable pub accepts : ℕ → ℕ → RoutingTableEntry → Bool
unfolding is_newer is_valid
accepts seq_no hop to_dst =
    not to_dst.valid_seq_no
    || is_newer seq_no to_dst.seq_no
    || (seq_no == to_dst.seq_no && not (is_valid to_dst.flag))
    || (seq_no == to_dst.seq_no && ltb hop to_dst.hops)

unfoldable pub newer_seq_no : ℕ → RoutingTableEntry → ℕ
unfolding is_newer
newer_seq_no seq_no to_origin =
    if to_origin.valid_seq_no
    then if is_newer seq_no to_origin.seq_no then seq_no else to_origin.seq_no
    else seq_no

-- The reverse route as a request changes it.
unfoldable pub reversed : Ipv4 → Time → ℕ → ℕ → ℕ → ℕ → Time → RoutingTableEntry → RoutingTableEntry
unfolding newer_seq_no set_seq_no set_valid_seq_no set_next_hop set_output_device set_interface
    set_hop set_life_time get_life_time
reversed ip now seq_no hop src receiver lifetime to_origin =
    set_life_time now (max_ℤ lifetime (get_life_time now to_origin)) (
      set_hop hop (
        set_interface (ip.interface_of receiver) (
          set_output_device (ip.device_of receiver) (
            set_next_hop src
              (set_valid_seq_no true (set_seq_no (newer_seq_no seq_no to_origin) to_origin))))))

-- A one-hop route by the device, whose sequence number is valid.
unfoldable pub is_known_neighbor : ℕ → RoutingTableEntry → Bool
is_known_neighbor dev e = e.valid_seq_no && e.hops == 1 && e.route.output_device == dev

module _ {D : Type 0} ⦃o : Platform D⦄ where
  unfoldable pub update_route_life_time : Time → ℕ → Time → RoutingTable D → RoutingTable D × Bool
  unfolding lookup_route is_valid set_rreq_cnt set_life_time get_life_time update
  update_route_life_time now addr lifetime t =
      let (t1, found) = lookup_route now addr t in
      elim found [
        | none ↦ (t1, false)
        | some rt ↦
            if is_valid rt.flag
            then (
              (update
                  (set_life_time now (max_ℤ lifetime (get_life_time now rt)) (set_rreq_cnt 0 rt))
                  t1).0,
              true,
            )
            else (t1, false)
      ]

  -- The entry's copy whose life time is set in the first case is given up: it is not written back.
  unfoldable pub update_route_to_neighbor :
      Ipv4 → Time → Time → ℕ → ℕ → RoutingTable D → RoutingTable D
  unfolding lookup_route add_route new_entry is_known_neighbor get_life_time update
  update_route_to_neighbor ip now active_route_timeout sender receiver t =
      let (t1, found) = lookup_route now sender t in
      let dev = ip.device_of receiver in
      let iface = ip.interface_of receiver in
      elim found [
        | none ↦
            (add_route now (new_entry now dev sender false 0 iface 1 sender active_route_timeout)
              t1).0
        | some to_neighbor ↦
            if is_known_neighbor dev to_neighbor
            then t1
            else (update
                (new_entry now dev sender false 0 iface 1 sender
                  (max_ℤ active_route_timeout (get_life_time now to_neighbor)))
                t1).0
      ]

  -- The reverse route of `RecvRequest`. The hop count is the request's, raised by this hop.
  unfoldable pub update_reverse_route :
      Ipv4 → Time → Time → Time → ℕ → ℕ → ℕ → ℕ → ℕ → RoutingTable D → RoutingTable D
  unfolding lookup_route add_route new_entry reversed update
  update_reverse_route ip now net_traversal_time node_traversal_time origin seq_no hop src receiver
        t =
      let (t1, found) = lookup_route now origin t in
      let lifetime = pos 2 *ℤ net_traversal_time -ℤ pos (2 * hop) *ℤ node_traversal_time in
      elim found [
        | none ↦
            (add_route now
              (new_entry now (ip.device_of receiver) origin true seq_no (ip.interface_of receiver)
                hop src lifetime)
              t1).0
        | some to_origin ↦
            (update (reversed ip now seq_no hop src receiver lifetime to_origin) t1).0
      ]

  -- The forward route of `RecvReply`, for the entry that the reply announces. The originator of the
  -- request writes it once more where the route was in search, which `Protocol.Replies.settled` does.
  unfoldable pub update_forward_route : Time → RoutingTableEntry → RoutingTable D → RoutingTable D
  unfolding lookup_route add_route accepts update
  update_forward_route now offered t =
      let (t1, found) = lookup_route now offered.route.destination t in
      elim found [
        | none ↦ (add_route now offered t1).0
        | some to_dst ↦
            if accepts offered.seq_no offered.hops to_dst then (update offered t1).0 else t1
      ]
