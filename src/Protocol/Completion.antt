-- ===== src/Protocol/Completion.antt =====
-- A reply ends the search for its destination.
use mathlib.Core.Option as Opt
use fp_jaringan_nirkabel.Base.{
  ℕ, suc, length, length-remove_if-le, arith, ==_refl, ◌≡◌, refl, ap, ◌∙◌, true, false, none, some,
  ◌++◌, map, Bool-cases, Returns, inl, inr,
}
use fp_jaringan_nirkabel.AddressMap.{find}
use fp_jaringan_nirkabel.AddressMap.Laws.{find-erase}
use fp_jaringan_nirkabel.Net.{Time}
use fp_jaringan_nirkabel.Platform.{Platform}
use fp_jaringan_nirkabel.RouteEntry.{
  RoutingTableEntry, in_search, is_in_search, new_entry, set_rreq_cnt,
}
use fp_jaringan_nirkabel.RoutingTable.{
  RoutingTable, has_run_out, purge_entry, purge, lookup_route, update, stored,
}
use fp_jaringan_nirkabel.RoutingTable.Invariant.{IsValid, update-IsValid}
use fp_jaringan_nirkabel.RoutingTable.Lookup.{find-purge}
use fp_jaringan_nirkabel.RequestQueue.{is_expired}
use fp_jaringan_nirkabel.Routing.{accepts, update_forward_route}
use fp_jaringan_nirkabel.Routing.Freshness.{find-updated}
use fp_jaringan_nirkabel.Routing.Validity.{update_forward_route-IsValid}
use fp_jaringan_nirkabel.Discovery.{or_default}
use fp_jaringan_nirkabel.Discovery.Returns.{find-purge_in_search}
use fp_jaringan_nirkabel.Packet.Rrep.{RrepHeader, get_ack_required}
use fp_jaringan_nirkabel.Protocol.{Node, Protocol, dropped, is_my_own_address, table_of, sockets_of}
use fp_jaringan_nirkabel.Protocol.Flush.{flush, live, expired, send_loop-flush}
use fp_jaringan_nirkabel.Protocol.RecvRequest.{or_previous}
use fp_jaringan_nirkabel.Protocol.Replies.{offer, settled, recv_own_reply, recv_route_reply}

module _ (node : Node) (now : Time) where
  stored-offer :
      (h : RrepHeader) (receiver sender : ℕ)
      → stored (offer node now h receiver sender) ≡ offer node now h receiver sender
  unfolding stored offer new_entry is_in_search set_rreq_cnt
  stored-offer h receiver sender = refl

  purge_entry-live :
      (bad : Time) (dst : ℕ) (e : RoutingTableEntry)
      → has_run_out now e ≡ false
      → purge_entry now bad dst e ≡ some e
  unfolding purge_entry
  purge_entry-live bad dst e h = rw h refl

module _ {D : Type 0} ⦃o : Platform D⦄ (node : Node) (now : Time) where
  -- Whether the reply is accepted or not, there is a route in the end.
  forward_route_there :
      (offered to_dst : RoutingTableEntry) (t : RoutingTable D)
      → find offered.route.destination (purge now t).routes ≡ some to_dst
      → (x : RoutingTableEntry) × (find offered.route.destination
            (update_forward_route now offered t).routes
          ≡ some x)
  unfolding update_forward_route lookup_route
  forward_route_there offered to_dst t there =
      elim (Bool-cases (accepts offered.seq_no offered.hops to_dst)) [
        | inl better ↦ (
          stored offered,
          rw (there, update_forward_route, better)
              (find-updated offered to_dst (purge now t) there),
        )
        | inr worse ↦ (to_dst, rw (there, update_forward_route, worse) there)
      ]

  -- A reply to a search of this node that asks for no acknowledgement, with a life time that has
  -- not run out, where the table is valid and has the route in search: whatever sequence number and
  -- hop count it has, its route becomes the route to the destination, the timer of the search is
  -- taken off, and the waiting packets go out along that route.
  pub recv_route_reply-completes :
      (h : RrepHeader) (receiver sender ttl : ℕ) (to_dst : RoutingTableEntry) (s : Protocol D)
      → IsValid (table_of s)
      → find h.dst (table_of s).routes ≡ some to_dst
      → to_dst.flag ≡ in_search
      → is_my_own_address h.origin (sockets_of s) ≡ true
      → get_ack_required h ≡ false
      → has_run_out now (offer node now h receiver sender) ≡ false
      → let offered = offer node now h receiver sender in
        Returns (recv_route_reply node now h receiver sender ttl s) (λ r.
          (find h.dst (table_of r.0).routes ≡ some offered)
          × (find h.dst r.0.discovery.address_req_timer ≡ none)
          × (r.0.queue.queue ≡ (flush node h.dst offered.route (live now s.queue)).0)
          × (r.1
              ≡ map dropped (expired now s.queue)
                ++ (flush node h.dst offered.route (live now s.queue)).1))
  unfolding recv_route_reply recv_own_reply settled lookup_route or_default or_previous Opt.bind
  recv_route_reply-completes h receiver sender ttl to_dst s v there searching mine no_ack fresh =
      let offered = offer node now h receiver sender in
      let t = table_of s in
      let still = find-purge_in_search now h.dst to_dst t v there searching in
      let t2 = update_forward_route now offered t in
      let v2 = update_forward_route-IsValid now offered t v in
      let (x, found) = forward_route_there offered to_dst t still in
      let t3 = (update offered t2).0 in
      let v3 = update-IsValid offered t2 v2 in
      let written : find h.dst t3.routes ≡ some offered =
        find-updated offered x t2 found ∙ ap some (stored-offer node now h receiver sender) in
      let kept : find h.dst (purge now t3).routes ≡ some offered =
        find-purge now h.dst t3 v3
        ∙ rw written (purge_entry-live node now t3.bad_link_lifetime h.dst offered fresh) in
      let sent =
        send_loop-flush node now h.dst offered.route (suc (length s.queue.queue)) s.queue
          (omega (arith, length-remove_if-le (is_expired now) s.queue.queue)) in
      rw (no_ack, mine, still, searching, kept, sent)
        (
          kept,
          find-erase h.dst h.dst s.discovery.address_req_timer ∙ rw (==_refl h.dst) refl,
          refl,
          refl,
        )
