-- ===== src/Protocol/Invariant/Interfaces.antt =====
-- The interfaces' notifications keep the node's state safe.
use fp_jaringan_nirkabel.Base.{
  ℕ, true, ◌==◌, refl, Option, none, some, if◌then◌else◌, OnSome, OnSome-bind, OnSome-if, pos,
  either_branch, Option-cases, inl, inr, not,
}
use fp_jaringan_nirkabel.Net.{Time}
use fp_jaringan_nirkabel.Platform.{Platform}
use fp_jaringan_nirkabel.RouteEntry.{InterfaceAddress}
use fp_jaringan_nirkabel.AddressMap.{erase}
use fp_jaringan_nirkabel.RoutingTable.{delete_all_routes_from_interface, add_route}
use fp_jaringan_nirkabel.RoutingTable.Alternatives.{clear}
use fp_jaringan_nirkabel.RoutingTable.Invariant.{
  add_route-IsValid, perform-IsValid, deletes_interface, perform,
}
use fp_jaringan_nirkabel.Errors.{find_socket}
use fp_jaringan_nirkabel.Protocol.{Node, Protocol, table_of, sockets_of, with_table}
use fp_jaringan_nirkabel.Protocol.Interfaces.{
  Interface, open_sockets, close_socket, add_cache, del_cache, shut_down, start, do_initialize,
  do_dispose, set_ipv4, add_broadcast_route, notify_interface_up, notify_interface_down,
  notify_add_address, notify_remove_address, remove_sockets, has_no_socket, localhost,
  localhost_address, lasting_entry, add_lasting_route,
}
use fp_jaringan_nirkabel.Protocol.Invariant.{IsSafe, like-IsSafe, with_table-IsSafe}

module _ {D : Type 0} ⦃o : Platform D⦄ (node : Node) where
  del_cache-IsSafe :
      (cache : Option ℕ) (s : Protocol D) → IsSafe node s → IsSafe node (del_cache cache s)
  unfolding del_cache
  del_cache-IsSafe none s v = v
  del_cache-IsSafe (some cache) s v = like-IsSafe node s _ refl refl refl refl v

  add_cache-IsSafe :
      (cache : Option ℕ) (s : Protocol D) → IsSafe node s → IsSafe node (add_cache cache s)
  unfolding add_cache
  add_cache-IsSafe none s v = v
  add_cache-IsSafe (some cache) s v = like-IsSafe node s _ refl refl refl refl v

  close_socket-IsSafe :
      (socket : ℕ) (s : Protocol D) → IsSafe node s → IsSafe node (close_socket socket s)
  unfolding close_socket
  close_socket-IsSafe socket s v = like-IsSafe node s _ refl refl refl refl v

  open_sockets-IsSafe :
      (i : Interface) (s : Protocol D) → IsSafe node s → IsSafe node (open_sockets i s)
  unfolding open_sockets
  open_sockets-IsSafe i s v = like-IsSafe node s _ refl refl refl refl v

  shut_down-IsSafe : (s : Protocol D) → IsSafe node s → IsSafe node (shut_down s)
  unfolding shut_down clear
  shut_down-IsSafe s v =
      like-IsSafe node (with_table (clear (table_of s)) s) _ refl refl refl refl
        (with_table-IsSafe node (clear (table_of s)) s (record { sorted = tt; keyed = tt }) v)

  without-IsSafe :
      (address : InterfaceAddress) (s : Protocol D)
      → IsSafe node s
      → IsSafe node (with_table (delete_all_routes_from_interface address (table_of s)) s)
  unfolding perform
  without-IsSafe address s v =
      with_table-IsSafe node (delete_all_routes_from_interface address (table_of s)) s
        (perform-IsValid (pos 0) (deletes_interface address) (table_of s) v.table) v

  pub start-IsSafe : (now : Time) (s : Protocol D) → IsSafe node s → IsSafe node (start node now s)
  unfolding start
  start-IsSafe now s v =
      let s' = record s { is_rerr_timer_running = true } in
      either_branch (IsSafe node) node.enable_hello _ s'
        (like-IsSafe node s _ refl refl refl refl v) (like-IsSafe node s s' refl refl refl refl v)

  pub do_initialize-Safe :
      (start_time : ℕ) (s : Protocol D)
      → IsSafe node s
      → OnSome (do_initialize node start_time s) (IsSafe node)
  unfolding do_initialize
  do_initialize-Safe start_time s v = OnSome-if (IsSafe node) _ none _ tt (
      OnSome-if (IsSafe node) node.enable_hello _ (some s)
        (like-IsSafe node s (record s { htimer = some (node.clock.milliseconds start_time) }) refl
          refl refl refl v)
        v)

  pub do_dispose-IsSafe : (s : Protocol D) → IsSafe node s → IsSafe node (do_dispose s)
  unfolding do_dispose
  do_dispose-IsSafe s v = like-IsSafe node s _ refl refl refl refl v

  add_lasting_route-IsSafe :
      (now : Time) (dev dst : ℕ) (iface : InterfaceAddress) (s : Protocol D)
      → IsSafe node s
      → IsSafe node (add_lasting_route node now dev dst iface s)
  unfolding add_lasting_route
  add_lasting_route-IsSafe now dev dst iface s v =
      let e = lasting_entry node now dev dst iface in
      with_table-IsSafe node (add_route now e (table_of s)).0 s
        (add_route-IsValid now e (table_of s) v.table) v

  pub set_ipv4-IsSafe :
      (now : Time) (s : Protocol D) → IsSafe node s → IsSafe node (set_ipv4 node now s)
  unfolding set_ipv4
  set_ipv4-IsSafe now s v =
      add_lasting_route-IsSafe now node.loopback localhost localhost_address s v

  opened-IsSafe :
      (now : Time) (i : Interface) (s : Protocol D)
      → IsSafe node s
      → IsSafe node (add_broadcast_route node now i.address (open_sockets i s))
  unfolding add_broadcast_route
  opened-IsSafe now i s v =
      let iface = i.address in
      add_lasting_route-IsSafe now (node.ip.device_of iface.local) iface.broadcast iface
        (open_sockets i s) (open_sockets-IsSafe i s v)

  pub notify_interface_up-IsSafe :
      (now : Time) (i : Interface) (s : Protocol D)
      → IsSafe node s
      → IsSafe node (notify_interface_up node now i s)
  unfolding notify_interface_up
  notify_interface_up-IsSafe now i s v =
      either_branch (IsSafe node) _ s _ v (add_cache-IsSafe i.arp_cache _ (opened-IsSafe now i s v))

  pub notify_interface_down-Safe :
      (i : Interface) (s : Protocol D)
      → IsSafe node s
      → OnSome (notify_interface_down i s) (IsSafe node)
  unfolding notify_interface_down
  notify_interface_down-Safe i s v =
      let s1 : Protocol D = if i.has_adhoc_mac then del_cache i.arp_cache s else s in
      let v1 : IsSafe node s1 =
        either_branch (IsSafe node) i.has_adhoc_mac _ s (del_cache-IsSafe i.arp_cache s v) v in
      OnSome-bind (IsSafe node) (find_socket i.address (sockets_of s1)) _ λ socket.
        let s2 = close_socket socket s1 in
        let v2 = close_socket-IsSafe socket s1 v1 in
        OnSome-bind (IsSafe node) (find_socket i.address s2.subnet_broadcast_addresses) _
          λ broadcast_socket.
            let s3 : Protocol D = record s2 {
              subnet_broadcast_addresses = erase broadcast_socket s2.subnet_broadcast_addresses;
            } in
            let v3 : IsSafe node s3 = like-IsSafe node s2 s3 refl refl refl refl v2 in
            either_branch (IsSafe node) (has_no_socket (sockets_of s3)) _ _ (shut_down-IsSafe s3 v3)
              (without-IsSafe i.address s3 v3)

  pub notify_add_address-IsSafe :
      (now : Time) (i : Interface) (s : Protocol D)
      → IsSafe node s
      → IsSafe node (notify_add_address node now i s)
  unfolding notify_add_address
  notify_add_address-IsSafe now i s v = either_branch (IsSafe node) (not i.is_up) s _ v (
      either_branch (IsSafe node) (i.addresses == 1) _ s
        (elim (Option-cases (find_socket i.address (sockets_of s))) [
          | inl new ↦ rw new (
              either_branch (IsSafe node) (i.address.local == localhost) s _ v
                (opened-IsSafe now i s v))
          | inr (socket, there) ↦ rw there v
        ])
        v)

  remove_sockets-IsSafe :
      (socket : ℕ) (address : InterfaceAddress) (s : Protocol D)
      → IsSafe node s
      → IsSafe node (remove_sockets socket address s)
  unfolding remove_sockets
  remove_sockets-IsSafe socket address s v =
      let w = close_socket-IsSafe socket s v in
      elim (Option-cases (find_socket address (close_socket socket s).subnet_broadcast_addresses)) [
        | inl gone ↦ rw (gone, remove_sockets) w
        | inr (unicast_socket, there) ↦
            rw (there, remove_sockets)
              (close_socket-IsSafe unicast_socket (close_socket socket s) w)
      ]

  pub notify_remove_address-IsSafe :
      (now : Time) (i : Interface) (address : InterfaceAddress) (s : Protocol D)
      → IsSafe node s
      → IsSafe node (notify_remove_address node now i address s)
  unfolding notify_remove_address
  notify_remove_address-IsSafe now i address s v =
      elim (Option-cases (find_socket address (sockets_of s))) [
        | inl unknown ↦ rw (unknown, notify_remove_address) v
        | inr (socket, there) ↦
            let s1 = with_table (delete_all_routes_from_interface address (table_of s)) s in
            let s2 = remove_sockets socket address s1 in
            let v2 = remove_sockets-IsSafe socket address s1 (without-IsSafe address s v) in
            let s3 : Protocol D =
              if i.addresses == 0
              then s2
              else add_broadcast_route node now i.address (open_sockets i s2) in
            let v3 : IsSafe node s3 =
              either_branch (IsSafe node) (i.addresses == 0) s2 _ v2 (opened-IsSafe now i s2 v2) in
            rw (there, notify_remove_address)
              (either_branch (IsSafe node) (has_no_socket (sockets_of s3)) _ s3
                (shut_down-IsSafe s3 v3) v3)
      ]
