-- ===== src/Discovery.antt =====
-- Route discovery of aodv-routing-protocol.cc: `SendRequest` and `ScheduleRreqRetry`, with the
-- expanding ring search. Messages that the code schedules are events, in the order of the calls;
-- the random delays of the messages are left out. `none` is the call of `NS_ABORT_MSG_UNLESS`.
pub mod Ring
pub mod Returns
pub mod Validity
mod Tests
use fp_jaringan_nirkabel.Base.{
  ℕ, ◌+◌, ◌-◌, ◌*◌, ◌%◌, ◌^◌, ◌==◌, ltb, Bool, true, false, Option, none, some, List, [], ◌∷◌,
  if◌then◌else◌, pos, ◌*ℤ◌, ◌>>=◌,
}
use fp_jaringan_nirkabel.AddressMap.{AddressMap, assign}
use fp_jaringan_nirkabel.Net.{Time}
use fp_jaringan_nirkabel.Platform.{Platform}
use fp_jaringan_nirkabel.RouteEntry.{
  RoutingTableEntry, InterfaceAddress, in_search, is_in_search, new_entry, set_life_time, set_flag,
  set_hop, increment_rreq_cnt,
}
use fp_jaringan_nirkabel.RoutingTable.{RoutingTable, lookup_route, add_route, update}
use fp_jaringan_nirkabel.IdCache.{IdCache, is_duplicate}
use fp_jaringan_nirkabel.Packet.Rreq.{
  RreqHeader, set_unknown_seqno, set_gratuitous_rrep, set_destination_only,
}

-- The attributes that the discovery reads, and ns-3's `Ipv4InterfaceAddress()`
-- and `Ipv4Address()`.
pub record Parameters : Type 0 where
  pub ttl_start : ℕ
  pub ttl_increment : ℕ
  pub ttl_threshold : ℕ
  pub timeout_buffer : ℕ
  pub rreq_rate_limit : ℕ
  pub net_diameter : ℕ
  pub node_traversal_time : Time
  pub net_traversal_time : Time
  pub path_discovery_time : Time
  pub gratuitous_reply : Bool
  pub destination_only : Bool
  pub default_interface : InterfaceAddress
  pub default_address : ℕ

-- The members of `RoutingProtocol` that the discovery reads and writes; a timer of
-- `m_addressReqTimer` is the time for which it was last scheduled, and a socket is a number.
pub record Discovery (D : Type 0) : Type 0 where
  pub table : RoutingTable D
  pub id_cache : IdCache
  pub socket_addresses : List (ℕ × InterfaceAddress)
  pub address_req_timer : AddressMap Time
  pub request_id : ℕ
  pub seq_no : ℕ
  pub rreq_count : ℕ
  pub last_bcast_time : Time

pub data Event : Type 0 where
  -- `SendRequest` again, once the rate limit's timer has expired.
  send_request_later : (dst : ℕ) → Event
  -- A request from a socket, with its time to live, to an address.
  broadcast : (socket : ℕ) (header : RreqHeader) (ttl destination : ℕ) → Event

-- The time to live for a destination that has a route: `uint16_t` arithmetic.
unfoldable pub next_ttl : Parameters → RoutingTableEntry → ℕ
unfolding is_in_search
next_ttl p rt =
    let wider = (rt.hops + p.ttl_increment) % 2 ^ 16 in
    let widest = p.net_diameter % 2 ^ 16 in
    if is_in_search rt.flag
    then if ltb p.ttl_threshold wider then widest else wider
    else if ltb widest wider
    then widest
    else wider

-- `if (ttl == m_netDiameter) rt.IncrementRreqCnt()`
unfoldable pub counted : Parameters → ℕ → RoutingTableEntry → RoutingTableEntry
unfolding increment_rreq_cnt
counted p ttl rt = if ttl == p.net_diameter then increment_rreq_cnt rt else rt

unfoldable pub searched : Parameters → Time → ℕ → RoutingTableEntry → RoutingTableEntry
unfolding counted set_hop set_flag set_life_time
searched p now ttl rt =
    set_life_time now p.path_discovery_time (set_flag in_search (set_hop ttl (counted p ttl rt)))

-- The time until the next request. `1 << backoffFactor` is an `int`: `none` also where the shift
-- leaves its 31 bits.
unfoldable pub retry_time : Parameters → RoutingTableEntry → Option Time
retry_time p rt =
    if ltb rt.hops p.net_diameter
    then some (pos 2 *ℤ p.node_traversal_time *ℤ pos (rt.hops + p.timeout_buffer))
    else if rt.req_count == 0
    then none
    else if ltb 31 rt.req_count
    then none
    else some (p.net_traversal_time *ℤ pos (2 ^ (rt.req_count - 1)))

-- All hosts on an interface of its own, the subnet's broadcast address otherwise.
unfoldable pub bcast_destination : InterfaceAddress → ℕ
bcast_destination iface = if iface.mask == 4294967295 then 4294967295 else iface.broadcast

-- The loop over the sockets. `SetTtl` takes a byte.
unfoldable pub broadcast_all :
    Time → ℕ → RreqHeader → List (ℕ × InterfaceAddress) → IdCache → IdCache × List Event
unfolding is_duplicate bcast_destination
broadcast_all now ttl h [] c = (c, [])
broadcast_all now ttl h ((socket, iface) ∷ ss) c =
    let h' : RreqHeader = record h { origin = iface.local } in
    let (c', events) =
      broadcast_all now ttl h' ss (is_duplicate now iface.local h.request_id c).0 in
    (c', broadcast socket h' (ttl % 2 ^ 8) (bcast_destination iface) ∷ events)

unfoldable pub bcast_time : Time → List (ℕ × InterfaceAddress) → Time → Time
bcast_time now [] last = last
bcast_time now (s ∷ ss) last = now

-- The variable that `LookupRoute` leaves alone where there is no route.
unfoldable pub or_default : Parameters → Time → Option RoutingTableEntry → RoutingTableEntry
unfolding new_entry
or_default p now none =
    new_entry now 0 p.default_address false 0 p.default_interface 0 p.default_address now
or_default p now (some rt) = rt

unfoldable pub new_request : Parameters → ℕ → RreqHeader
new_request p dst = record {
  flags = 0;
  reserved = 0;
  hop_count = 0;
  request_id = 0;
  dst = dst;
  dst_seq_no = 0;
  origin = p.default_address;
  origin_seq_no = 0;
}

unfoldable pub flagged : Parameters → RreqHeader → RreqHeader
unfolding set_gratuitous_rrep set_destination_only
flagged p h =
    let h1 = if p.gratuitous_reply then set_gratuitous_rrep true h else h in
    if p.destination_only then set_destination_only true h1 else h1

module _ {D : Type 0} ⦃o : Platform D⦄ where
  unfoldable pub schedule_rreq_retry : Parameters → Time → ℕ → Discovery D → Option (Discovery D)
  unfolding lookup_route or_default retry_time assign
  schedule_rreq_retry p now dst s = do
    let (t, found) = lookup_route now dst s.table
    retry ← retry_time p (or_default p now found)
    some record s { table = t; address_req_timer = assign dst retry s.address_req_timer }

  -- The part before the header's flags: the table, the time to live and the header.
  unfoldable pub search : Parameters → Time → ℕ → RoutingTable D → RoutingTable D × ℕ × RreqHeader
  unfolding lookup_route add_route update next_ttl searched counted set_flag new_entry new_request
      set_unknown_seqno
  search p now dst t =
      let (t1, found) = lookup_route now dst t in
      let h = new_request p dst in
      elim found [
        | none ↦
            let e =
              new_entry now 0 dst false 0 p.default_interface p.ttl_start p.default_address
                p.path_discovery_time in
            (
              (add_route now (set_flag in_search (counted p p.ttl_start e)) t1).0,
              p.ttl_start,
              set_unknown_seqno true h,
            )
        | some rt ↦
            let ttl = next_ttl p rt in
            (
              (update (searched p now ttl rt) t1).0,
              ttl,
              if rt.valid_seq_no
                  then record h { dst_seq_no = rt.seq_no }
                  else set_unknown_seqno true h,
            )
      ]

  -- The rest of `SendRequest` up to `ScheduleRreqRetry`.
  unfoldable pub requested : Parameters → Time → ℕ → Discovery D → Discovery D × List Event
  unfolding search flagged broadcast_all bcast_time
  requested p now dst s =
      let (t, ttl, h) = search p now dst s.table in
      let seq_no = (s.seq_no + 1) % 2 ^ 32 in
      let request_id = (s.request_id + 1) % 2 ^ 32 in
      let h' : RreqHeader = record (flagged p h) {
        origin_seq_no = seq_no;
        request_id = request_id;
      } in
      let (cache, events) = broadcast_all now ttl h' s.socket_addresses s.id_cache in
      (
        record s {
          table = t;
          id_cache = cache;
          request_id = request_id;
          seq_no = seq_no;
          rreq_count = (s.rreq_count + 1) % 2 ^ 16;
          last_bcast_time = bcast_time now s.socket_addresses s.last_bcast_time;
        },
        events,
      )

  unfoldable pub send_request :
      Parameters → Time → ℕ → Discovery D → Option (Discovery D × List Event)
  unfolding requested schedule_rreq_retry
  send_request p now dst s =
      if s.rreq_count == p.rreq_rate_limit then some (s, send_request_later dst ∷ []) else do
        let (s', events) = requested p now dst s
        s'' ← schedule_rreq_retry p now dst s'
        some (s'', events)
