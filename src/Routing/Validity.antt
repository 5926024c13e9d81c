-- ===== src/Routing/Validity.antt =====
-- The table stays valid under what received messages do to it.
use fp_jaringan_nirkabel.Base.{
  ℕ, pos, ◌*ℤ◌, ◌-ℤ◌, ◌*◌, max_ℤ, false, true, Bool-cases, Option-cases, inl, inr,
}
use fp_jaringan_nirkabel.AddressMap.{find}
use fp_jaringan_nirkabel.Net.{Time}
use fp_jaringan_nirkabel.Platform.{Platform}
use fp_jaringan_nirkabel.RouteEntry.{
  RoutingTableEntry, is_valid, new_entry, set_life_time, get_life_time, set_rreq_cnt,
}
use fp_jaringan_nirkabel.RoutingTable.{RoutingTable, purge, lookup_route}
use fp_jaringan_nirkabel.RoutingTable.Invariant.{
  IsValid, purge-IsValid, update-IsValid, add_route-IsValid,
}
use fp_jaringan_nirkabel.Routing.{
  Ipv4, reversed, is_known_neighbor, accepts, update_route_life_time, update_route_to_neighbor,
  update_reverse_route, update_forward_route,
}

module _ {D : Type 0} ⦃o : Platform D⦄ where
  pub update_route_life_time-IsValid :
      (now : Time) (addr : ℕ) (lifetime : Time) (t : RoutingTable D)
      → IsValid t
      → IsValid (update_route_life_time now addr lifetime t).0
  unfolding update_route_life_time lookup_route
  update_route_life_time-IsValid now addr lifetime t v =
      elim (Option-cases (find addr (purge now t).routes)) [
        | inl new ↦ rw (new, update_route_life_time) (purge-IsValid now t v)
        | inr (rt, there) ↦ elim (Bool-cases (is_valid rt.flag)) [
          | inl usable ↦
              rw (there, update_route_life_time, usable)
                (update-IsValid
                  (set_life_time now (max_ℤ lifetime (get_life_time now rt)) (set_rreq_cnt 0 rt))
                  (purge now t) (purge-IsValid now t v))
          | inr unusable ↦ rw (there, update_route_life_time, unusable) (purge-IsValid now t v)
        ]
      ]

  pub update_route_to_neighbor-IsValid :
      (ip : Ipv4) (now active : Time) (sender receiver : ℕ) (t : RoutingTable D)
      → IsValid t
      → IsValid (update_route_to_neighbor ip now active sender receiver t)
  unfolding update_route_to_neighbor lookup_route
  update_route_to_neighbor-IsValid ip now active sender receiver t v =
      elim (Option-cases (find sender (purge now t).routes)) [
        | inl new ↦
            rw (new, update_route_to_neighbor)
              (add_route-IsValid now
                (new_entry now (ip.device_of receiver) sender false 0 (ip.interface_of receiver) 1
                  sender active)
                (purge now t) (purge-IsValid now t v))
        | inr (rt, there) ↦ elim (Bool-cases (is_known_neighbor (ip.device_of receiver) rt)) [
          | inl known ↦ rw (there, update_route_to_neighbor, known) (purge-IsValid now t v)
          | inr unknown ↦
              rw (there, update_route_to_neighbor, unknown)
                (update-IsValid
                  (new_entry now (ip.device_of receiver) sender false 0 (ip.interface_of receiver) 1
                    sender (max_ℤ active (get_life_time now rt)))
                  (purge now t) (purge-IsValid now t v))
        ]
      ]

  pub update_reverse_route-IsValid :
      (ip : Ipv4) (now net node : Time) (origin seq_no hop src receiver : ℕ) (t : RoutingTable D)
      → IsValid t
      → IsValid (update_reverse_route ip now net node origin seq_no hop src receiver t)
  unfolding update_reverse_route lookup_route
  update_reverse_route-IsValid ip now net node origin seq_no hop src receiver t v =
      elim (Option-cases (find origin (purge now t).routes)) [
        | inl new ↦
            rw (new, update_reverse_route)
              (add_route-IsValid now
                (new_entry now (ip.device_of receiver) origin true seq_no (ip.interface_of receiver)
                  hop src (pos 2 *ℤ net -ℤ pos (2 * hop) *ℤ node))
                (purge now t) (purge-IsValid now t v))
        | inr (rt, there) ↦
            rw (there, update_reverse_route)
              (update-IsValid
                (reversed ip now seq_no hop src receiver (pos 2 *ℤ net -ℤ pos (2 * hop) *ℤ node) rt)
                (purge now t) (purge-IsValid now t v))
      ]

  pub update_forward_route-IsValid :
      (now : Time) (offered : RoutingTableEntry) (t : RoutingTable D)
      → IsValid t
      → IsValid (update_forward_route now offered t)
  unfolding update_forward_route lookup_route
  update_forward_route-IsValid now offered t v =
      elim (Option-cases (find offered.route.destination (purge now t).routes)) [
        | inl new ↦
            rw (new, update_forward_route)
              (add_route-IsValid now offered (purge now t) (purge-IsValid now t v))
        | inr (rt, there) ↦ elim (Bool-cases (accepts offered.seq_no offered.hops rt)) [
          | inl better ↦
              rw (there, update_forward_route, better)
                (update-IsValid offered (purge now t) (purge-IsValid now t v))
          | inr worse ↦ rw (there, update_forward_route, worse) (purge-IsValid now t v)
        ]
      ]
