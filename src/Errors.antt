-- ===== src/Errors.antt =====
-- `RecvError` and `SendRerrMessage` of aodv-routing-protocol.cc. Messages that the code schedules are
-- events, in the order of the calls; the random delays of the messages are left out. `none` is a
-- failed assertion: that of `AddUnDestination`, that a socket has the interface's address, or that the
-- timer of the rate limit runs. `AddUnDestination` never returns false: the branches for that value,
-- which send a full message, are left out.
pub mod Later
pub mod Reported
pub mod Returns
pub mod Unused
pub mod BrokenLinks
pub mod Broken
pub mod Validity
mod Tests
use fp_jaringan_nirkabel.Base.{
  ℕ, ◌+◌, ◌%◌, ◌^◌, ◌==◌, Bool, true, false, Option, none, some, List, [], ◌∷◌, ◌++◌, if◌then◌else◌,
  any, ◌>>=◌,
}
use fp_jaringan_nirkabel.AddressMap.{AddressMap, insert}
use fp_jaringan_nirkabel.Net.{Time}
use fp_jaringan_nirkabel.Platform.{Platform}
use fp_jaringan_nirkabel.RouteEntry.{
  RoutingTableEntry, InterfaceAddress, is_interface, get_precursors,
}
use fp_jaringan_nirkabel.RoutingTable.{
  RoutingTable, lookup_route, lookup_valid_route, get_list_of_destination_with_next_hop,
  invalidate_routes_with_dst,
}
use fp_jaringan_nirkabel.Discovery.{bcast_destination}
use fp_jaringan_nirkabel.Packet.Rerr.{RerrHeader, get_dest_count, add_un_destination}

-- The members that the code reads and writes.
pub record Reporter (D : Type 0) : Type 0 where
  pub table : RoutingTable D
  pub rerr_count : ℕ
  pub rerr_rate_limit : ℕ
  -- `m_rerrRateLimitTimer.IsRunning()`
  pub is_limit_timer_running : Bool
  pub sockets : List (ℕ × InterfaceAddress)

-- A message sent through an interface's socket to an address.
pub record ErrorMessage : Type 0 where
  pub interface : InterfaceAddress
  pub header : RerrHeader
  pub destination : ℕ

-- The loop over the destinations by the message's sender, for one that the message names.
unfoldable pub insert_if_via : AddressMap ℕ → ℕ → ℕ → AddressMap ℕ → AddressMap ℕ
unfolding insert
insert_if_via [] dst seq_no unreachable = unreachable
insert_if_via ((i, _) ∷ via) dst seq_no unreachable =
    insert_if_via via dst seq_no (if i == dst then insert dst seq_no unreachable else unreachable)

-- The loop that takes the message's destinations out, from the first one on.
unfoldable pub concerned : AddressMap ℕ → AddressMap ℕ → AddressMap ℕ → AddressMap ℕ
unfolding insert_if_via
concerned via [] unreachable = unreachable
concerned via ((dst, seq_no) ∷ uns) unreachable =
    concerned via uns (insert_if_via via dst seq_no unreachable)

unfoldable pub broadcasts : RerrHeader → List InterfaceAddress → List ErrorMessage
unfolding bcast_destination
broadcasts h [] = []
broadcasts h (iface ∷ ifaces) =
    record { interface = iface; header = h; destination = bcast_destination iface }
    ∷ broadcasts h ifaces

-- `FindSocketWithInterfaceAddress`
unfoldable pub find_socket : InterfaceAddress → List (ℕ × InterfaceAddress) → Option ℕ
unfolding is_interface
find_socket addr [] = none
find_socket addr ((socket, iface) ∷ ss) =
    if is_interface iface addr then some socket else find_socket addr ss

-- The loop that sends from the interfaces' sockets.
unfoldable pub broadcast_from :
    RerrHeader → List InterfaceAddress → List (ℕ × InterfaceAddress) → Option (List ErrorMessage)
unfolding bcast_destination find_socket
broadcast_from h [] ss = some []
broadcast_from h (iface ∷ ifaces) ss = do
  socket ← find_socket iface ss
  sent ← broadcast_from h ifaces ss
  some (record { interface = iface; header = h; destination = bcast_destination iface } ∷ sent)

unfoldable pub add_interface :
    Option RoutingTableEntry → List InterfaceAddress → List InterfaceAddress
unfolding is_interface
add_interface none ifaces = ifaces
add_interface (some to) ifaces =
    if any (is_interface to.interface) ifaces then ifaces else ifaces ++ to.interface ∷ []

unfoldable pub precursors_of : Option RoutingTableEntry → List ℕ → List ℕ
unfolding get_precursors
precursors_of none precursors = precursors
precursors_of (some to) precursors = get_precursors to precursors

module _ {D : Type 0} ⦃o : Platform D⦄ where
  -- The interfaces of the valid routes to the precursors, each once.
  unfoldable pub interfaces :
      Time
      → List ℕ
      → RoutingTable D
      → List InterfaceAddress
      → RoutingTable D × List InterfaceAddress
  unfolding lookup_valid_route add_interface
  interfaces now [] t ifaces = (t, ifaces)
  interfaces now (i ∷ precursors) t ifaces =
      let (t', to) = lookup_valid_route now i t in
      interfaces now precursors t' (add_interface to ifaces)

  unfoldable pub send_to_one :
      RerrHeader
      → ℕ
      → Reporter D
      → Option RoutingTableEntry
      → Option (Reporter D × List ErrorMessage)
  unfolding find_socket
  send_to_one h precursor s none = some (s, [])
  send_to_one h precursor s (some to) = do
    socket ← find_socket to.interface s.sockets
    some (
      record s { rerr_count = (s.rerr_count + 1) % 2 ^ 16 },
      record { interface = to.interface; header = h; destination = precursor } ∷ [],
    )

  -- Past the tests on the list and the rate limit.
  unfoldable pub send_to_precursors :
      Time → RerrHeader → List ℕ → Reporter D → Option (Reporter D × List ErrorMessage)
  unfolding send_to_one lookup_valid_route interfaces broadcast_from
  send_to_precursors now h [] s = some (s, [])
  send_to_precursors now h (i ∷ []) s =
      let (t, to) = lookup_valid_route now i s.table in send_to_one h i (record s { table = t }) to
  send_to_precursors now h (i ∷ j ∷ precursors) s = do
    let (t, ifaces) = interfaces now (i ∷ j ∷ precursors) s.table []
    sent ← broadcast_from h ifaces s.sockets
    some (record s { table = t }, sent)

  unfoldable pub send_rerr_message :
      Time → RerrHeader → List ℕ → Reporter D → Option (Reporter D × List ErrorMessage)
  unfolding send_to_precursors
  send_rerr_message now h [] s = some (s, [])
  send_rerr_message now h (i ∷ precursors) s =
      if s.rerr_count == s.rerr_rate_limit
      then if s.is_limit_timer_running then some (s, []) else none
      else send_to_precursors now h (i ∷ precursors) s

  -- A message that names a destination is sent.
  unfoldable pub send_if_named :
      Time → RerrHeader → List ℕ → Reporter D → Option (Reporter D × List ErrorMessage)
  unfolding get_dest_count send_rerr_message
  send_if_named now h precursors s =
      if get_dest_count h == 0 then some (s, []) else send_rerr_message now h precursors s

  -- The loop that fills the new message and collects the precursors.
  unfoldable pub fill :
      Time
      → AddressMap ℕ
      → RerrHeader
      → RoutingTable D
      → List ℕ
      → Option (RerrHeader × RoutingTable D × List ℕ)
  unfolding add_un_destination lookup_route precursors_of
  fill now [] h t precursors = some (h, t, precursors)
  fill now ((dst, seq_no) ∷ us) h t precursors = do
    (h', added) ← add_un_destination dst seq_no h
    let (t', to) = lookup_route now dst t
    fill now us h' t' (precursors_of to precursors)

  unfoldable pub recv_error :
      Time → RerrHeader → ℕ → Reporter D → Option (Reporter D × List ErrorMessage)
  unfolding get_list_of_destination_with_next_hop concerned fill send_if_named
      invalidate_routes_with_dst
  recv_error now h src s = do
    let (t, via) = get_list_of_destination_with_next_hop now src s.table
    let unreachable = concerned via h.unreachable []
    (h', t', precursors) ← fill now unreachable (record h { unreachable = [] }) t []
    (s', sent) ← send_if_named now h' precursors (record s { table = t' })
    some (record s' { table = invalidate_routes_with_dst now unreachable s'.table }, sent)
