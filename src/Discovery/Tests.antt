-- ===== src/Discovery/Tests.antt =====
-- A discovery with the default attributes, in microseconds, on a node with two interfaces.
use fp_jaringan_nirkabel.Base.{
  ℕ, ◌≡◌, ◌⊎◌, ◌<◌, ◌+◌, ◌-◌, ◌*◌, ◌/◌, ◌%◌, ◌^◌, ltb, refl, true, false, [], ◌∷◌, pos, pos_part,
  arith, Returns, map,
}
use fp_jaringan_nirkabel.Platform.{Platform}
use fp_jaringan_nirkabel.RouteEntry.{in_search, InterfaceAddress, RoutingTableEntry}
use fp_jaringan_nirkabel.IdCache.{init}
use fp_jaringan_nirkabel.Discovery.{Parameters, Discovery, next_ttl, searched, bcast_destination}
use fp_jaringan_nirkabel.Discovery.Ring.{IsSane, IsSearched, searched-advances}

instance abbrev plain_numbers : Platform ℕ
plain_numbers = record {
  decimal = λ m k. pos_part m;
  of_ℕ = λ n. n;
  add = ◌+◌;
  sub = ◌-◌;
  mul = ◌*◌;
  div = ◌/◌;
  lt = ltb;
  default_address = 0;
}

abbrev no_interface : InterfaceAddress
no_interface = record { local = 0; mask = 0; broadcast = 0 }

abbrev defaults : Parameters
defaults = record {
  ttl_start = 1;
  ttl_increment = 2;
  ttl_threshold = 7;
  timeout_buffer = 2;
  rreq_rate_limit = 10;
  net_diameter = 35;
  node_traversal_time = pos 40000;
  net_traversal_time = pos 2800000;
  path_discovery_time = pos 5600000;
  gratuitous_reply = true;
  destination_only = false;
  default_interface = no_interface;
  default_address = 0;
}

defaults-IsSane : IsSane defaults
defaults-IsSane = record {
  starts = omega arith;
  byte = omega arith;
  widens = omega arith;
  threshold = omega arith;
  fits = omega arith;
}

abbrev sought : RoutingTableEntry
sought = record {
  valid_seq_no = false;
  seq_no = 0;
  hops = 7;
  life_time = pos 9000000;
  route = record { destination = 9; gateway = 0; source = 0; output_device = 0 };
  interface = no_interface;
  flag = in_search;
  precursor_list = [];
  req_count = 0;
  black_list_state = false;
  black_list_timeout = pos 0;
}

abbrev node : Discovery ℕ
node = record {
  table = record { routes = (9, sought) ∷ []; multipath = []; bad_link_lifetime = pos 15000000 };
  id_cache = init (pos 5600000);
  socket_addresses =
      (1, record { local = 11; mask = 4294967295; broadcast = 255 })
      ∷ (2, record { local = 21; mask = 4294967040; broadcast = 255 })
      ∷ [];
  address_req_timer = [];
  request_id = 4;
  seq_no = 6;
  rreq_count = 3;
  last_bcast_time = pos 0;
}

destinations : map (λ s. bcast_destination s.1) node.socket_addresses ≡ 4294967295 ∷ 255 ∷ []
unfolding bcast_destination
destinations = refl

searched-advances_example :
    let e = searched defaults (pos 5) (next_ttl defaults sought) sought in
    IsSearched defaults e
    × (next_ttl defaults sought % 2 ^ 8 ≡ e.hops)
    × (((7 < e.hops) × (e.hops < 35) × (e.req_count ≡ 0)) ⊎ ((e.hops ≡ 35) × (e.req_count ≡ 0 + 1)))
searched-advances_example =
    searched-advances defaults (pos 5) sought defaults-IsSane (omega arith, omega arith)
