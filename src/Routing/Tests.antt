-- ===== src/Routing/Tests.antt =====
-- Routes that messages change, at concrete inputs, with natural numbers in place of doubles.
use fp_jaringan_nirkabel.Base.{
  ℕ, ◌≡◌, ◌⊎◌, ◌+◌, ◌-◌, ◌*◌, ◌/◌, ◌%◌, ◌^◌, ltb, refl, true, false, some, [], ◌∷◌, pos, pos_part,
  ◌+ℤ◌, ◌-ℤ◌, ◌*ℤ◌, ◌≤ℤ◌, arith,
}
use fp_jaringan_nirkabel.AddressMap.{find}
use fp_jaringan_nirkabel.Platform.{Platform}
use fp_jaringan_nirkabel.RouteEntry.{valid, is_valid, InterfaceAddress, RoutingTableEntry}
use fp_jaringan_nirkabel.RoutingTable.{
  RoutingTable, purge, purge_routes, has_run_out, purge_multipath_routes,
}
use fp_jaringan_nirkabel.Routing.{
  Ipv4, update_route_life_time, update_reverse_route, update_forward_route,
}
use fp_jaringan_nirkabel.Routing.SeqNo.{is_newer, is_newer-ahead}
use fp_jaringan_nirkabel.Routing.Freshness.{
  NoWorse, IsExtended, LeadsBack, update_forward_route-NoWorse, find-update_reverse_route,
}
use fp_jaringan_nirkabel.Routing.LifeTime.{update_route_life_time_lem}

instance abbrev whole_numbers : Platform ℕ
whole_numbers = record {
  decimal = λ m k. pos_part m;
  of_ℕ = λ n. n;
  add = ◌+◌;
  sub = ◌-◌;
  mul = ◌*◌;
  div = ◌/◌;
  lt = ltb;
  default_address = 0;
}

abbrev card : InterfaceAddress
card = record { local = 1; mask = 255; broadcast = 254 }

abbrev ip : Ipv4
ip = record { device_of = λ a. 2; interface_of = λ a. card }

-- Number 4294967295, the last before the wrap-around, until 50.
abbrev old_route : RoutingTableEntry
old_route = record {
  valid_seq_no = true;
  seq_no = 4294967295;
  hops = 3;
  life_time = pos 50;
  route = record { destination = 9; gateway = 4; source = 1; output_device = 2 };
  interface = card;
  flag = valid;
  precursor_list = [];
  req_count = 0;
  black_list_state = false;
  black_list_timeout = pos 0;
}

abbrev known : RoutingTable ℕ
known = record { routes = (9, old_route) ∷ []; multipath = []; bad_link_lifetime = pos 15 }

find-purge-known : find 9 (purge (pos 30) known).routes ≡ some old_route
unfolding find purge purge_routes purge_multipath_routes has_run_out ◌-ℤ◌
find-purge-known = refl

newer_past_zero :
    (is_newer ((4294967295 + 3) % 2 ^ 32) 4294967295 ≡ true)
    × (is_newer 4294967295 ((4294967295 + 3) % 2 ^ 32) ≡ false)
newer_past_zero = is_newer-ahead 4294967295 3 (omega arith) (omega arith) (omega arith)

abbrev offered : RoutingTableEntry
offered = record old_route { seq_no = 1; hops = 5; life_time = pos 80 }

update_forward_route-NoWorse_example :
    (new : RoutingTableEntry) × (find 9 (update_forward_route (pos 30) offered known).routes
      ≡ some new)
    × NoWorse old_route new
    × (is_newer 4294967295 new.seq_no ≡ false)
update_forward_route-NoWorse_example =
    update_forward_route-NoWorse (pos 30) offered old_route known find-purge-known refl
      (omega arith) (omega arith)

find-update_reverse_route_example :
    (new : RoutingTableEntry) × (find 9
        (update_reverse_route ip (pos 30) (pos 28) (pos 4) 9 1 2 6 1 known).routes
      ≡ some new)
    × LeadsBack ip 1 2 6 1 new
    × IsExtended (pos 30) (pos 2 *ℤ pos 28 -ℤ pos (2 * 2) *ℤ pos 4) old_route new
find-update_reverse_route_example =
    find-update_reverse_route ip (pos 30) (pos 28) (pos 4) 1 2 6 1 old_route known find-purge-known
      (omega arith) (omega arith)

prolonged :
    let (t', done) = update_route_life_time (pos 30) 9 (pos 60) known in
    (done ≡ is_valid valid)
    × ((new : RoutingTableEntry) × (find 9 t'.routes ≡ some new)
        × (((is_valid valid ≡ false) × (new ≡ old_route))
            ⊎ ((new.flag ≡ valid)
                × (pos 50 ≤ℤ new.life_time)
                × (pos 30 +ℤ pos 60 ≤ℤ new.life_time))))
prolonged = update_route_life_time_lem (pos 30) (pos 60) old_route known find-purge-known
