-- ===== src/Protocol/Queueing.antt =====
-- Packets that wait for a route: `SendPacketFromQueue`, `DeferredRouteOutput` and
-- `RouteRequestTimerExpire` of aodv-routing-protocol.cc.
use fp_jaringan_nirkabel.Base.{
  ℕ, ℤ, zero, suc, ◌+◌, ◌%◌, ◌^◌, ◌==◌, ◌&&◌, not, Bool, true, false, Option, none, some, List, [],
  ◌∷◌, ◌++◌, if◌then◌else◌, map, negsuc, length, ◌>>=◌,
}
use fp_jaringan_nirkabel.AddressMap.{erase}
use fp_jaringan_nirkabel.Net.{Time, Packet, Ipv4Header}
use fp_jaringan_nirkabel.Platform.{Platform}
use fp_jaringan_nirkabel.RouteEntry.{RoutingTableEntry, Ipv4Route, is_in_search}
use fp_jaringan_nirkabel.RoutingTable.{lookup_route, if_valid, delete_route}
use fp_jaringan_nirkabel.RequestQueue.{
  RequestQueue, QueueEntry, queue_entry, enqueue, dequeue, drop_packet_with_dst,
}
use fp_jaringan_nirkabel.Discovery.{or_default}
use fp_jaringan_nirkabel.Protocol.{
  is_same_interface, Node, Protocol, Output, forwarded, dropped, table_of, with_table, after,
  search_for,
}

-- The packet was sent to an interface, which is not the route's.
unfoldable pub is_elsewhere : Node → Ipv4Route → Option ℤ → Bool
unfolding is_same_interface
is_elsewhere node route none = false
is_elsewhere node route (some interface) =
    not (is_same_interface interface (negsuc 0))
    && not (is_same_interface interface (node.interface_for_device route.output_device))

-- The packet without its tag; the header with the route's source and the time to live raised by one.
unfoldable pub forward : Ipv4Route → QueueEntry → Output
forward route e =
    forwarded e.ucb route (record e.packet { deferred_tag = none })
      (record e.header { source = route.source; ttl = (e.header.ttl + 1) % 2 ^ 8 })

unfoldable pub put_before :
    List Output → Option (RequestQueue × List Output) → Option (RequestQueue × List Output)
put_before out none = none
put_before out (some (q, more)) = some (q, out ++ more)

-- The loop of `SendPacketFromQueue`, with fuel for its runs.
unfoldable pub send_loop :
    ℕ → Node → Time → ℕ → Ipv4Route → RequestQueue → Option (RequestQueue × List Output)
unfolding dequeue is_elsewhere forward put_before
send_loop zero node now dst route q = none
send_loop (suc fuel) node now dst route q =
    let (q', calls, found) = dequeue now dst q in
    elim found [
      | none ↦ some (q', map dropped calls)
      | some e ↦ elim (is_elsewhere node route e.packet.deferred_tag) [
        | true ↦ some (q', map dropped calls)
        | false ↦
            put_before (map dropped calls ++ forward route e ∷ [])
              (send_loop fuel node now dst route q')
      ]
    ]

unfoldable pub is_searching : Option RoutingTableEntry → Bool
unfolding is_in_search
is_searching none = false
is_searching (some rt) = is_in_search rt.flag

module _ {D : Type 0} where
  abbrev pub with_queue :
      Protocol D → Option (RequestQueue × List Output) → Option (Protocol D × List Output)
  with_queue s none = none
  with_queue s (some (q, out)) = some (record s { queue = q }, out)

  -- One run of the loop for each packet of the queue, and the one that finds none.
  unfoldable pub send_packet_from_queue :
      Node → Time → ℕ → Ipv4Route → Protocol D → Option (Protocol D × List Output)
  unfolding send_loop
  send_packet_from_queue node now dst route s =
      with_queue s (send_loop (suc (length s.queue.queue)) node now dst route s.queue)

module _ {D : Type 0} ⦃o : Platform D⦄ where
  unfoldable pub give_up : Time → ℕ → Protocol D → Protocol D × List Output
  unfolding erase delete_route drop_packet_with_dst
  give_up now dst s =
      let (q, calls) = drop_packet_with_dst now dst s.queue in
      (
        record s {
          discovery = record s.discovery {
            address_req_timer = erase dst s.discovery.address_req_timer;
            table = (delete_route now dst s.discovery.table).0;
          };
          queue = q;
        },
        map dropped calls,
      )

  unfoldable pub route_request_timer_expire :
      Node → Time → ℕ → Protocol D → Option (Protocol D × List Output)
  unfolding lookup_route if_valid or_default send_packet_from_queue give_up is_in_search search_for
  route_request_timer_expire node now dst s =
      let (t, found) = lookup_route now dst (table_of s) in
      let s1 = with_table t s in
      let to_dst = or_default node.parameters now found in
      elim (if_valid found) [
        | some rt ↦ send_packet_from_queue node now dst rt.route s1
        | none ↦
            if to_dst.req_count == node.rreq_retries
            then some (give_up now dst s1)
            else if is_in_search to_dst.flag
            then search_for node now dst s1
            else some (give_up now dst s1)
      ]

  unfoldable pub deferred_route_output :
      Node → Time → Packet → Ipv4Header → ℕ → ℕ → Protocol D → Option (Protocol D × List Output)
  unfolding enqueue queue_entry lookup_route is_searching search_for
  deferred_route_output node now p header ucb ecb s = do
    (q, calls, result) ← enqueue now (queue_entry now p header ucb ecb now) s.queue
    let s1 = record s { queue = q }
    let (t, found) = lookup_route now header.destination (table_of s)
    elim result [
      | false ↦ some (s1, map dropped calls)
      | true ↦ elim (is_searching found) [
        | true ↦ some (with_table t s1, map dropped calls)
        | false ↦
            after (map dropped calls) (search_for node now header.destination (with_table t s1))
      ]
    ]
