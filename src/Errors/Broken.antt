-- ===== src/Errors/Broken.antt =====
-- The error messages that a node starts: `SendRerrWhenBreaksLinkToNextHop` and
-- `SendRerrWhenNoRouteToForward` of aodv-routing-protocol.cc, on the members of `Reporter`.
use fp_jaringan_nirkabel.Base.{
  ℕ, ◌==◌, Option, none, some, List, map, [], ◌∷◌, if◌then◌else◌, ◌>>=◌,
}
use fp_jaringan_nirkabel.AddressMap.{insert}
use fp_jaringan_nirkabel.Net.{Time}
use fp_jaringan_nirkabel.Platform.{Platform}
use fp_jaringan_nirkabel.RouteEntry.{RoutingTableEntry, InterfaceAddress, get_precursors}
use fp_jaringan_nirkabel.RoutingTable.{
  lookup_route, lookup_valid_route, get_list_of_destination_with_next_hop,
  invalidate_routes_with_dst,
}
use fp_jaringan_nirkabel.Packet.Rerr.{RerrHeader, new_header, add_un_destination}
use fp_jaringan_nirkabel.Errors.{
  Reporter, ErrorMessage, broadcasts, find_socket, fill, send_if_named,
}

-- To the next hop towards the packet's source, or from every socket; those of the node's map are
-- there, so that only the look-up of one can fail its assertion.
unfoldable pub no_route_messages :
    RerrHeader → List (ℕ × InterfaceAddress) → Option RoutingTableEntry → Option (List ErrorMessage)
unfolding broadcasts find_socket
no_route_messages h ss none = some (broadcasts h (map (λ s. s.1) ss))
no_route_messages h ss (some to) = do
  socket ← find_socket to.interface ss
  some (record { interface = to.interface; header = h; destination = to.route.gateway } ∷ [])

module _ {D : Type 0} ⦃o : Platform D⦄ where
  -- Past the test that there is a route to the next hop.
  unfoldable pub report_broken_link :
      Time → ℕ → RoutingTableEntry → Reporter D → Option (Reporter D × List ErrorMessage)
  unfolding get_precursors new_header add_un_destination get_list_of_destination_with_next_hop fill
      send_if_named insert invalidate_routes_with_dst
  report_broken_link now next_hop to s = do
    (h, added) ← add_un_destination next_hop to.seq_no new_header
    let (t, unreachable) = get_list_of_destination_with_next_hop now next_hop s.table
    (h', t', precursors) ← fill now unreachable h t (get_precursors to [])
    (s', sent) ← send_if_named now h' precursors (record s { table = t' })
    some (
      record s' {
        table = invalidate_routes_with_dst now (insert next_hop to.seq_no unreachable) s'.table;
      },
      sent,
    )

  unfoldable pub send_rerr_when_breaks_link_to_next_hop :
      Time → ℕ → Reporter D → Option (Reporter D × List ErrorMessage)
  unfolding lookup_route report_broken_link
  send_rerr_when_breaks_link_to_next_hop now next_hop s =
      let (t, found) = lookup_route now next_hop s.table in
      elim found [
        | none ↦ some (record s { table = t }, [])
        | some to ↦ report_broken_link now next_hop to (record s { table = t })
      ]

  unfoldable pub send_rerr_when_no_route_to_forward :
      Time → ℕ → ℕ → ℕ → Reporter D → Option (Reporter D × List ErrorMessage)
  unfolding add_un_destination new_header lookup_valid_route no_route_messages
  send_rerr_when_no_route_to_forward now dst dst_seq_no origin s =
      if s.rerr_count == s.rerr_rate_limit
      then if s.is_limit_timer_running then some (s, []) else none
      else do
        (h, added) ← add_un_destination dst dst_seq_no new_header
        let (t, found) = lookup_valid_route now origin s.table
        sent ← no_route_messages h s.sockets found
        some (record s { table = t }, sent)
