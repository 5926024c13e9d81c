-- ===== src/Errors/Tests.antt =====
-- Error messages at concrete inputs, with natural numbers in place of doubles.
use fp_jaringan_nirkabel.Base.{
  true, false, Returns, ℕ, ◌≡◌, ◌⊎◌, ◌<◌, ◌≤◌, ◌+◌, ◌-◌, ◌*◌, ◌/◌, ltb, none, [], ◌∷◌, List, pos,
  pos_part, refl, OnSome, ◌&&◌, ◌==◌, arith, length, if◌then◌else◌,
}
use fp_jaringan_nirkabel.AddressMap.{find, AddressMap}
use fp_jaringan_nirkabel.Platform.{Platform}
use fp_jaringan_nirkabel.RouteEntry.{
  is_interface, InterfaceAddress, RoutingTableEntry, valid, is_valid,
}
use fp_jaringan_nirkabel.Packet.Rerr.{RerrHeader}
use fp_jaringan_nirkabel.Errors.{Reporter, find_socket, concerned, send_rerr_message, recv_error}
use fp_jaringan_nirkabel.Errors.Later.{IsAttached}
use fp_jaringan_nirkabel.Errors.Unused.{find-recv_error}
use fp_jaringan_nirkabel.RoutingTable.Invariant.{IsValid}
use fp_jaringan_nirkabel.Errors.Reported.{is_via, find-concerned, rerr_count-send_rerr_message}

instance abbrev small_numbers : Platform ℕ
small_numbers = record {
  decimal = λ m k. pos_part m;
  of_ℕ = λ n. n;
  add = ◌+◌;
  sub = ◌-◌;
  mul = ◌*◌;
  div = ◌/◌;
  lt = ltb;
  default_address = 0;
}

-- The sender leads to 7 and 9; the message names 3 and 7.
abbrev by_sender : AddressMap ℕ
by_sender = (7, 1) ∷ (9, 4) ∷ []

abbrev named : AddressMap ℕ
named = (3, 8) ∷ (7, 2) ∷ []

sender_concerned :
    find 7 (concerned by_sender named []) ≡ (if is_via 7 by_sender then find 7 named else none)
sender_concerned = find-concerned by_sender named 7 (omega arith, tt)

abbrev card : InterfaceAddress
card = record { local = 1; mask = 255; broadcast = 254 }

-- A valid route over a next hop, with the precursor 4.
abbrev leads : ℕ → ℕ → RoutingTableEntry
leads dst hop = record {
  valid_seq_no = true;
  seq_no = 1;
  hops = 2;
  life_time = pos 60;
  route = record { destination = dst; gateway = hop; source = 1; output_device = 2 };
  interface = card;
  flag = valid;
  precursor_list = 4 ∷ [];
  req_count = 0;
  black_list_state = false;
  black_list_timeout = pos 0;
}

abbrev reporter : Reporter ℕ
reporter = record {
  table = record {
    routes = (4, leads 4 4) ∷ (7, leads 7 6) ∷ [];
    multipath = [];
    bad_link_lifetime = pos 15;
  };
  rerr_count = 9;
  rerr_rate_limit = 10;
  is_limit_timer_running = true;
  sockets = (5, card) ∷ [];
}

abbrev two : List ℕ
two = 4 ∷ 6 ∷ []

abbrev message : RerrHeader
message = record { flag = 0; reserved = 0; unreachable = named }

reporter-IsValid : IsValid reporter.table
reporter-IsValid = record { sorted = (omega arith, tt); keyed = ground arith }

reporter-IsAttached : IsAttached reporter
unfolding find is_valid find_socket is_interface
reporter-IsAttached = record {
  running = refl;
  reachable = (((λ usable. (5, refl)), tt), (((λ usable. (5, refl)), tt), tt));
}

-- 7 is named, and its route goes over 6.
find-recv_error_example :
    Returns
      (recv_error (pos 5) message 6 reporter)
      (λ r. OnSome (find 7 r.0.table.routes) (λ e. is_valid e.flag && e.route.gateway == 6 ≡ false))
unfolding find
find-recv_error_example =
    find-recv_error (pos 5) message 6 7 2 reporter reporter-IsValid reporter-IsAttached
      (omega arith, tt) (omega arith) refl

rerr_count-send_rerr_message_example :
    Returns (send_rerr_message (pos 5) message two reporter) (λ r.
      (r.0.rerr_count ≤ 10)
      × (((r.0.rerr_count ≡ 9) × ((r.1 ≡ []) ⊎ (1 < length two)))
          ⊎ ((r.0.rerr_count ≡ 9 + 1) × (length two ≡ 1) × (length r.1 ≡ 1))))
unfolding find is_valid find_socket is_interface
rerr_count-send_rerr_message_example =
    rerr_count-send_rerr_message (pos 5) message two reporter reporter-IsValid refl
      ((λ usable. (5, refl)), (tt, tt)) (omega arith) (omega arith)
