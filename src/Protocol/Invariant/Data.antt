-- ===== src/Protocol/Invariant/Data.antt =====
-- Data packets leave a safe state: `RouteOutput`, `Forwarding` and `RouteInput`.
use fp_jaringan_nirkabel.Base.{
  ℕ, ◌==◌, ◌&&◌, refl, Bool, true, false, Option, none, some, List, ◌∷◌, Bool-cases, Option-cases,
  OnSome, inl, inr, any, List-cases,
}
use fp_jaringan_nirkabel.AddressMap.{find}
use fp_jaringan_nirkabel.Net.{Time, Packet, Ipv4Header}
use fp_jaringan_nirkabel.Platform.{Platform}
use fp_jaringan_nirkabel.RouteEntry.{Ipv4Route, is_valid}
use fp_jaringan_nirkabel.RoutingTable.{
  RoutingTable, purge, lookup_route, lookup_valid_route, if_valid,
}
use fp_jaringan_nirkabel.RoutingTable.Invariant.{IsValid, purge-IsValid}
use fp_jaringan_nirkabel.IdCache.{IdCache, is_duplicate_packet}
use fp_jaringan_nirkabel.Routing.Validity.{update_route_life_time-IsValid}
use fp_jaringan_nirkabel.Errors.Broken.{send_rerr_when_no_route_to_forward}
use fp_jaringan_nirkabel.Errors.Validity as Reporting
use fp_jaringan_nirkabel.Protocol.{
  Node, Protocol, Output, is_my_own_address, table_of, sockets_of, with_table, ◌▹◌, reporter,
  update_neighbor,
}
use fp_jaringan_nirkabel.Protocol.Forwarding.{
  touch, answering, loopback_route, is_other_device, route_output, no_route, renew, forward_by,
  forwarding, is_broadcast_on,
}
use fp_jaringan_nirkabel.Protocol.Input.{
  has_tag, stays, broadcast_input, renew_origin, unicast_input, route_input,
}
use fp_jaringan_nirkabel.Protocol.Invariant.{
  IsSafe, Safe, like-IsSafe, with_table-IsSafe, ▹-Safe, report-Safe, reporter-IsSound,
  update_neighbor-Safe, deferred_route_output-Safe,
}

module _ {D : Type 0} ⦃o : Platform D⦄ (node : Node) (now : Time) where
  touch-IsValid : (addr : ℕ) (t : RoutingTable D) → IsValid t → IsValid (touch node now addr t)
  touch-IsValid addr t v = update_route_life_time-IsValid now addr node.active_route_timeout t v

  answering-Safe :
      (b : Bool) (r : Option (Protocol D × List Output))
      → Safe node r
      → OnSome (answering b r) (λ r. IsSafe node r.0)
  answering-Safe b none h = tt
  answering-Safe b (some r) h = h

  pub route_output-Safe :
      (p : Option Packet) (header : Ipv4Header) (oif : Option ℕ) (s : Protocol D)
      → IsSafe node s
      → OnSome (route_output node now p header oif s) (λ r. IsSafe node r.0)
  unfolding route_output lookup_valid_route lookup_route
  route_output-Safe none header oif s h =
      elim (Option-cases (loopback_route node header oif (sockets_of s))) [
        | inl fails ↦ rw fails tt
        | inr (route, there) ↦ rw there h
      ]
  route_output-Safe (some p) header oif s h =
      let dst = header.destination in
      let t = purge now (table_of s) in
      let v = purge-IsValid now (table_of s) h.table in
      let purged = with_table-IsSafe node t s v h in
      elim (List-cases (sockets_of s)) [
        | inl no_sockets ↦ rw (no_sockets, route_output) h
        | inr (socket, ss, connected) ↦ elim (Option-cases (if_valid (find dst t.routes))) [
          | inl no_route ↦ elim (Option-cases (loopback_route node header oif (socket ∷ ss))) [
            | inl fails ↦ rw (connected, route_output, no_route, fails) tt
            | inr (route, there) ↦ rw (connected, route_output, no_route, there) purged
          ]
          | inr (rt, there) ↦ elim (Bool-cases (is_other_device oif rt.route)) [
            | inl other ↦ rw (connected, route_output, there, other) purged
            | inr same ↦
                rw (connected, route_output, there, same)
                  (with_table-IsSafe node (touch node now rt.route.gateway (touch node now dst t)) s
                    (touch-IsValid rt.route.gateway _ (touch-IsValid dst t v)) h)
          ]
        ]
      ]

  no_route-Safe :
      (dst seq_no origin : ℕ) (s : Protocol D)
      → IsSafe node s
      → Safe node (no_route node now dst seq_no origin s)
  unfolding no_route
  no_route-Safe dst seq_no origin s h =
      report-Safe node s
        (send_rerr_when_no_route_to_forward now dst seq_no origin (reporter node s)) h
        (Reporting.send_rerr_when_no_route_to_forward-IsSound node.rerr_rate_limit now dst seq_no
          origin (reporter node s) (reporter-IsSound node s h))

  renew-IsValid :
      (header : Ipv4Header) (route : Ipv4Route) (t : RoutingTable D)
      → IsValid t
      → IsValid (renew node now header route t).0
  unfolding renew lookup_route
  renew-IsValid header route t v =
      let t1 =
        touch node now route.gateway
          (touch node now header.destination (touch node now header.source t)) in
      touch-IsValid _ (purge now t1) (
        purge-IsValid now t1 (
          touch-IsValid route.gateway _
            (touch-IsValid header.destination _ (touch-IsValid header.source t v))))

  forward_by-Safe :
      (p : Packet) (header : Ipv4Header) (ucb : ℕ) (route : Ipv4Route) (s : Protocol D)
      → IsSafe node s
      → Safe node (forward_by node now p header ucb route s)
  unfolding forward_by
  forward_by-Safe p header ucb route s h =
      let active = node.active_route_timeout in
      let (t, next_hop) = renew node now header route (table_of s) in
      let s1 = with_table t s in
      ▹-Safe node
        (update_neighbor node now route.gateway active s1
          ▹ update_neighbor node now next_hop active)
        _
        (▹-Safe node (update_neighbor node now route.gateway active s1) _
          (update_neighbor-Safe node now route.gateway active s1
            (with_table-IsSafe node t s (renew-IsValid header route (table_of s) h.table) h))
          (update_neighbor-Safe node now next_hop active))
        (λ s h. h)

  pub forwarding-Safe :
      (p : Packet) (header : Ipv4Header) (ucb : ℕ) (s : Protocol D)
      → IsSafe node s
      → OnSome (forwarding node now p header ucb s) (λ r. IsSafe node r.0)
  unfolding forwarding lookup_route
  forwarding-Safe p header ucb s h =
      let dst = header.destination in
      let t = purge now (purge now (table_of s)) in
      let v = purge-IsValid now (purge now (table_of s)) (purge-IsValid now (table_of s) h.table) in
      let s1 = with_table t s in
      let h1 = with_table-IsSafe node t s v h in
      elim (Option-cases (find dst t.routes)) [
        | inl unknown ↦
            rw (unknown, forwarding)
              (answering-Safe false _ (no_route-Safe dst 0 header.source s1 h1))
        | inr (to_dst, there) ↦ elim (Bool-cases (is_valid to_dst.flag)) [
          | inl usable ↦
              rw (there, forwarding, usable)
                (answering-Safe true _ (forward_by-Safe p header ucb to_dst.route s1 h1))
          | inr unusable ↦ elim (Bool-cases to_dst.valid_seq_no) [
            | inl known ↦
                rw (there, forwarding, unusable, known)
                  (answering-Safe false _ (no_route-Safe dst to_dst.seq_no header.source s1 h1))
            | inr unknown ↦
                rw (there, forwarding, unusable, unknown)
                  (answering-Safe false _ (no_route-Safe dst 0 header.source s1 h1))
          ]
        ]
      ]

  with_packets-IsSafe :
      (c : IdCache) (s : Protocol D) → IsSafe node s → IsSafe node (record s { packets = c })
  with_packets-IsSafe c s h = like-IsSafe node s (record s { packets = c }) refl refl refl refl h

  broadcast_input-IsSafe :
      (p : Packet) (header : Ipv4Header) (ucb : ℕ) (lcb : Bool) (ecb : ℕ) (s : Protocol D)
      → IsSafe node s
      → IsSafe node (broadcast_input node now p header ucb lcb ecb s).0
  unfolding broadcast_input lookup_route
  broadcast_input-IsSafe p header ucb lcb ecb s h =
      let c = (is_duplicate_packet now p header s.packets).0 in
      let s1 : Protocol D = record s { packets = c } in
      let h1 = with_packets-IsSafe c s h in
      let t1 = touch node now header.source (table_of s) in
      let v1 = touch-IsValid header.source (table_of s) h.table in
      elim (Bool-cases (is_duplicate_packet now p header s.packets).1) [
        | inl again ↦ rw again h1
        | inr new ↦ elim (Bool-cases (stays node p header)) [
          | inl kept ↦ rw (new, kept) (with_table-IsSafe node t1 s1 v1 h1)
          | inr sent ↦
              rw (new, sent) (with_table-IsSafe node (purge now t1) s1 (purge-IsValid now t1 v1) h1)
        ]
      ]

  renew_origin-Safe :
      (header : Ipv4Header) (s : Protocol D)
      → IsSafe node s
      → Safe node (renew_origin node now header s)
  unfolding renew_origin lookup_valid_route lookup_route
  renew_origin-Safe header s h =
      let t1 = touch node now header.source (table_of s) in
      let t = purge now t1 in
      let v = purge-IsValid now t1 (touch-IsValid header.source (table_of s) h.table) in
      elim (Option-cases (if_valid (find header.source t.routes))) [
        | inl no_route ↦ rw (no_route, renew_origin) (with_table-IsSafe node t s v h)
        | inr (to, there) ↦
            let t' = touch node now to.route.gateway t in
            rw (there, renew_origin)
              (update_neighbor-Safe node now to.route.gateway node.active_route_timeout
                (with_table t' s)
                (with_table-IsSafe node t' s (touch-IsValid to.route.gateway t v) h))
      ]

  unicast_input-Safe :
      (p : Packet) (header : Ipv4Header) (lcb : Bool) (ecb : ℕ) (s : Protocol D)
      → IsSafe node s
      → Safe node (unicast_input node now p header lcb ecb s)
  unfolding unicast_input
  unicast_input-Safe p header lcb ecb s h =
      ▹-Safe node (renew_origin node now header s) _ (renew_origin-Safe header s h) (λ s h. h)

  -- Every branch of `RouteInput`.
  pub route_input-Safe :
      (p : Packet) (header : Ipv4Header) (idev ucb : ℕ) (lcb : Bool) (ecb : ℕ) (s : Protocol D)
      → IsSafe node s
      → OnSome (route_input node now p header idev ucb lcb ecb s) (λ r. IsSafe node r.0)
  unfolding route_input
  route_input-Safe p header idev ucb lcb ecb s h = elim (List-cases (sockets_of s)) [
    | inl no_sockets ↦ rw (no_sockets, route_input) h
    | inr (socket, ss, connected) ↦
        let iif = node.interface_for_device idev in
        let dst = header.destination in
        elim (Bool-cases (idev == node.loopback && has_tag p)) [
          | inl deferred ↦
              rw (connected, route_input, deferred)
                (answering-Safe true _ (deferred_route_output-Safe node now p header ucb ecb s h))
          | inr direct ↦ elim (Bool-cases (is_my_own_address header.source (socket ∷ ss))) [
            | inl own ↦ rw (connected, route_input, direct, own) h
            | inr foreign ↦ elim (Bool-cases (node.is_multicast dst)) [
              | inl many ↦ rw (connected, route_input, direct, foreign, many) h
              | inr few ↦ elim (Bool-cases (any (is_broadcast_on node iif dst) (socket ∷ ss))) [
                | inl all ↦
                    rw (connected, route_input, direct, foreign, few, all)
                      (broadcast_input-IsSafe p header ucb lcb ecb s h)
                | inr one ↦ elim (Bool-cases (node.is_destination_address dst iif)) [
                  | inl here ↦
                      rw (connected, route_input, direct, foreign, few, one, here)
                        (answering-Safe true _ (unicast_input-Safe p header lcb ecb s h))
                  | inr away ↦ elim (Bool-cases (node.is_forwarding iif)) [
                    | inl forwards ↦
                        rw (connected, route_input, direct, foreign, few, one, away, forwards)
                          (forwarding-Safe p header ucb s h)
                    | inr never ↦
                        rw (connected, route_input, direct, foreign, few, one, away, never) h
                  ]
                ]
              ]
            ]
          ]
        ]
  ]
