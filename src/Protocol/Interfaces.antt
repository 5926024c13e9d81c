-- ===== src/Protocol/Interfaces.antt =====
-- The interfaces in aodv-routing-protocol.cc: `SetIpv4` and `Start`, `DoInitialize` and `DoDispose`,
-- and the notifications of ns-3, with the sockets that they create and close. The callbacks that
-- they set at sockets and devices are the calls of Steps.
use fp_jaringan_nirkabel.Base.{
  ℕ, ◌==◌, not, ltb, Bool, true, false, Option, none, some, List, [], ◌∷◌, if◌then◌else◌, ◌>>=◌,
}
use fp_jaringan_nirkabel.AddressMap.{insert, erase}
use fp_jaringan_nirkabel.Net.{Time}
use fp_jaringan_nirkabel.Platform.{Platform}
use fp_jaringan_nirkabel.RouteEntry.{InterfaceAddress, RoutingTableEntry, new_entry}
use fp_jaringan_nirkabel.RoutingTable.{add_route, delete_all_routes_from_interface}
use fp_jaringan_nirkabel.RoutingTable.Alternatives.{clear}
use fp_jaringan_nirkabel.Neighbors as Nb
use fp_jaringan_nirkabel.Errors.{find_socket}
use fp_jaringan_nirkabel.Protocol.{Node, Protocol, table_of, sockets_of, with_table}

-- What ns-3 answers about an interface at the time of the call: its first address, the number of its
-- addresses, its ARP cache; and the sockets that it creates in the call.
pub record Interface : Type 0 where
  pub address : InterfaceAddress
  pub addresses : ℕ
  pub is_up : Bool
  pub arp_cache : Option ℕ
  pub has_adhoc_mac : Bool
  pub socket : ℕ
  pub broadcast_socket : ℕ

-- 127.0.0.1, and its interface's address with the mask 255.0.0.0.
abbrev pub localhost : ℕ
localhost = 2130706433

abbrev pub localhost_address : InterfaceAddress
localhost_address = record { local = localhost; mask = 4278190080; broadcast = 2147483647 }

unfoldable pub has_no_socket : List (ℕ × InterfaceAddress) → Bool
has_no_socket [] = true
has_no_socket (s ∷ ss) = false

-- A route of one hop to itself that does not run out.
unfoldable pub lasting_entry : Node → Time → ℕ → ℕ → InterfaceAddress → RoutingTableEntry
unfolding new_entry
lasting_entry node now dev dst iface =
    new_entry now dev dst true 0 iface 1 dst node.maximum_simulation_time

module _ {D : Type 0} where
  unfoldable pub open_sockets : Interface → Protocol D → Protocol D
  unfolding insert
  open_sockets i s = record s {
    discovery = record s.discovery { socket_addresses = insert i.socket i.address (sockets_of s) };
    subnet_broadcast_addresses = insert i.broadcast_socket i.address s.subnet_broadcast_addresses;
  }

  unfoldable pub close_socket : ℕ → Protocol D → Protocol D
  unfolding erase
  close_socket socket s = record s {
    discovery = record s.discovery { socket_addresses = erase socket (sockets_of s) };
  }

  unfoldable pub add_cache : Option ℕ → Protocol D → Protocol D
  unfolding Nb.add_arp_cache
  add_cache none s = s
  add_cache (some cache) s = record s { neighbors = Nb.add_arp_cache cache s.neighbors }

  unfoldable pub del_cache : Option ℕ → Protocol D → Protocol D
  unfolding Nb.del_arp_cache
  del_cache none s = s
  del_cache (some cache) s = record s { neighbors = Nb.del_arp_cache cache s.neighbors }

  unfoldable pub start : Node → Time → Protocol D → Protocol D
  unfolding Nb.schedule_timer
  start node now s =
      let s' : Protocol D = record s { is_rerr_timer_running = true } in
      if node.enable_hello then record s' { neighbors = Nb.schedule_timer now s.neighbors } else s'

  -- `start_time` is drawn at random from 0 to 100; a wrong configuration aborts.
  unfoldable pub do_initialize : Node → (start_time : ℕ) → Protocol D → Option (Protocol D)
  do_initialize node start_time s =
      if ltb node.parameters.net_diameter node.parameters.ttl_start
      then none
      else if node.enable_hello
      then some (record s { htimer = some (node.clock.milliseconds start_time) })
      else some s

  unfoldable pub do_dispose : Protocol D → Protocol D
  do_dispose s = record s {
    discovery = record s.discovery { socket_addresses = [] };
    subnet_broadcast_addresses = [];
  }

module _ {D : Type 0} ⦃o : Platform D⦄ where
  -- Where no socket is left.
  unfoldable pub shut_down : Protocol D → Protocol D
  unfolding clear Nb.clear
  shut_down s = record s {
    htimer = none;
    neighbors = Nb.clear s.neighbors;
    discovery = record s.discovery { table = clear (table_of s) };
  }

  unfoldable pub notify_interface_down : Interface → Protocol D → Option (Protocol D)
  unfolding del_cache find_socket close_socket erase has_no_socket shut_down
      delete_all_routes_from_interface
  notify_interface_down i s = do
    let s1 = if i.has_adhoc_mac then del_cache i.arp_cache s else s
    socket ← find_socket i.address (sockets_of s1)
    let s2 = close_socket socket s1
    broadcast_socket ← find_socket i.address s2.subnet_broadcast_addresses
    let s3 : Protocol D = record s2 {
      subnet_broadcast_addresses = erase broadcast_socket s2.subnet_broadcast_addresses;
    }
    some (
        if has_no_socket (sockets_of s3)
        then shut_down s3
        else with_table (delete_all_routes_from_interface i.address (table_of s3)) s3)

  unfoldable pub add_lasting_route :
      Node → Time → ℕ → ℕ → InterfaceAddress → Protocol D → Protocol D
  unfolding add_route lasting_entry
  add_lasting_route node now dev dst iface s =
      with_table (add_route now (lasting_entry node now dev dst iface) (table_of s)).0 s

  -- `SetIpv4`, whose assertions are about ns-3.
  unfoldable pub set_ipv4 : Node → Time → Protocol D → Protocol D
  unfolding add_lasting_route
  set_ipv4 node now s = add_lasting_route node now node.loopback localhost localhost_address s

  unfoldable pub add_broadcast_route : Node → Time → InterfaceAddress → Protocol D → Protocol D
  unfolding add_lasting_route
  add_broadcast_route node now iface s =
      add_lasting_route node now (node.ip.device_of iface.local) iface.broadcast iface s

  unfoldable pub notify_interface_up : Node → Time → Interface → Protocol D → Protocol D
  unfolding open_sockets add_broadcast_route add_cache
  notify_interface_up node now i s =
      if i.address.local == localhost
      then s
      else add_cache i.arp_cache (add_broadcast_route node now i.address (open_sockets i s))

  unfoldable pub notify_add_address : Node → Time → Interface → Protocol D → Protocol D
  unfolding find_socket open_sockets add_broadcast_route
  notify_add_address node now i s =
      if not i.is_up
      then s
      else if i.addresses == 1
      then elim (find_socket i.address (sockets_of s)) [
        | some socket ↦ s
        | none ↦
            if i.address.local == localhost
            then s
            else add_broadcast_route node now i.address (open_sockets i s)
      ]
      else s

  -- The second socket is erased from the map that it is not in.
  unfoldable pub remove_sockets : ℕ → InterfaceAddress → Protocol D → Protocol D
  unfolding close_socket find_socket
  remove_sockets socket address s =
      let s1 = close_socket socket s in
      elim (find_socket address s1.subnet_broadcast_addresses) [
        | none ↦ s1
        | some unicast_socket ↦ close_socket unicast_socket s1
      ]

  unfoldable pub notify_remove_address :
      Node → Time → Interface → InterfaceAddress → Protocol D → Protocol D
  unfolding find_socket delete_all_routes_from_interface remove_sockets open_sockets
      add_broadcast_route has_no_socket shut_down
  notify_remove_address node now i address s = elim (find_socket address (sockets_of s)) [
    | none ↦ s
    | some socket ↦
        let s1 = with_table (delete_all_routes_from_interface address (table_of s)) s in
        let s2 = remove_sockets socket address s1 in
        let s3 : Protocol D =
          if i.addresses == 0
          then s2
          else add_broadcast_route node now i.address (open_sockets i s2) in
        if has_no_socket (sockets_of s3) then shut_down s3 else s3
  ]
