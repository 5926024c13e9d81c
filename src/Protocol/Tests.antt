-- ===== src/Protocol/Tests.antt =====
-- A node on one interface that searches for a destination, with a packet that waits for it.
use fp_jaringan_nirkabel.Base.{
  ℤ, ◌≡◌, ◌+ℤ◌, ◌-ℤ◌, ◌*ℤ◌, ◌⊎◌, ◌&&◌, ◌||◌, ◌==◌, ◌+◌, ◌*◌, ◌%◌, ◌^◌, ◌++◌, true, false, not,
  Option, none, some, List, [], ◌∷◌, All, map, remove_if, pos, negsuc, ltb_ℤ, refl, arith, Returns,
}
use mathlib.Core.List.{Mem}
use fp_jaringan_nirkabel.AddressMap.{find}
use fp_jaringan_nirkabel.Platform.{Platform}
use fp_jaringan_nirkabel.RouteEntry.{in_search, InterfaceAddress, RoutingTableEntry, Ipv4Route}
use fp_jaringan_nirkabel.RoutingTable.{purge, lookup_route, has_run_out}
use fp_jaringan_nirkabel.RoutingTable.Invariant.{IsValid}
use fp_jaringan_nirkabel.IdCache.{is_duplicate}
use fp_jaringan_nirkabel.RequestQueue.{QueueEntry, has_destination, is_expired, drop_if}
use fp_jaringan_nirkabel.Neighbors as Nb
use fp_jaringan_nirkabel.Multipath.{PathInfo, default_path, calculate_composite_score}
use fp_jaringan_nirkabel.Packet.Rreq.{RreqHeader, get_unknown_seqno}
use fp_jaringan_nirkabel.Packet.Rrep.{RrepHeader, get_ack_required}
use fp_jaringan_nirkabel.Discovery.{Parameters}
use fp_jaringan_nirkabel.Discovery.Ring.{IsSane}
use fp_jaringan_nirkabel.Protocol.{Node, Protocol, Output, dropped, table_of, is_my_own_address}
use fp_jaringan_nirkabel.Protocol.Queueing.{is_elsewhere, forward, send_packet_from_queue}
use fp_jaringan_nirkabel.Protocol.Flush.{
  flush, live, expired, send_packet_from_queue-flush, send_packet_from_queue_undisturbed,
}
use fp_jaringan_nirkabel.Protocol.Requests.{is_current, reply_seq_no}
use fp_jaringan_nirkabel.Protocol.RecvRequest.{recv_request, is_blacklisted}
use fp_jaringan_nirkabel.Protocol.Replies.{offer, recv_route_reply}
use fp_jaringan_nirkabel.Protocol.Paths.{select_best_path_by_metrics}
use fp_jaringan_nirkabel.Protocol.Invariant.{IsSafe}
use fp_jaringan_nirkabel.Protocol.Interfaces.{Interface, notify_remove_address, notify_interface_up}
use fp_jaringan_nirkabel.Protocol.Steps.{Reach, retries, run}
use fp_jaringan_nirkabel.Protocol.Reachable.{Reach-IsSafe}
use fp_jaringan_nirkabel.Protocol.GivingUp.{expiries, GivenUp, expiries-end}
use fp_jaringan_nirkabel.Protocol.Completion.{recv_route_reply-completes}
use fp_jaringan_nirkabel.Protocol.SeqNo.{is_current-reply_seq_no}
use fp_jaringan_nirkabel.Protocol.Once.{Arrival, after_requests, recv_request-once}
use fp_jaringan_nirkabel.Protocol.BestPath.{select_best_path_by_metrics-best}

-- Hundredths as whole numbers.
instance abbrev signed_numbers : Platform ℤ
signed_numbers = record {
  decimal = λ m k. m;
  of_ℕ = λ n. pos n;
  add = ◌+ℤ◌;
  sub = ◌-ℤ◌;
  mul = ◌*ℤ◌;
  div = λ a b. a;
  lt = ltb_ℤ;
  default_address = 0;
}

abbrev wlan : InterfaceAddress
wlan = record { local = 11; mask = 4294967040; broadcast = 255 }

abbrev attributes : Parameters
attributes = record {
  ttl_start = 1;
  ttl_increment = 2;
  ttl_threshold = 7;
  timeout_buffer = 2;
  rreq_rate_limit = 10;
  net_diameter = 35;
  node_traversal_time = pos 40;
  net_traversal_time = pos 2800;
  path_discovery_time = pos 5600;
  gratuitous_reply = true;
  destination_only = false;
  default_interface = record { local = 0; mask = 0; broadcast = 0 };
  default_address = 0;
}

abbrev node : Node
node = record {
  parameters = attributes;
  ip = record { device_of = λ a. 1; interface_of = λ a. wlan };
  view = record { lookup = λ c a. none; no_mac = 0 };
  clock = record { milliseconds = λ n. pos n; get_milliseconds = λ t. t };
  interface_for_device = λ d. pos 1;
  interface_for_address = λ a. pos 1;
  is_destination_address = λ a i. a == 11;
  is_forwarding = λ i. true;
  is_multicast = λ a. false;
  udp_port = λ p. 0;
  loopback = 0;
  maximum_simulation_time = pos 9223372036854775807;
  active_route_timeout = pos 3000;
  my_route_timeout = pos 11200;
  hello_interval = pos 1000;
  allowed_hello_loss = 2;
  rreq_retries = 2;
  rerr_rate_limit = 10;
  enable_hello = true;
  enable_broadcast = true;
  seconds = λ n. pos (1000 * n);
}

abbrev sought : RoutingTableEntry
sought = record {
  valid_seq_no = true;
  seq_no = 8;
  hops = 35;
  life_time = pos 9000;
  route = record { destination = 9; gateway = 0; source = 0; output_device = 0 };
  interface = record { local = 0; mask = 0; broadcast = 0 };
  flag = in_search;
  precursor_list = [];
  req_count = 1;
  black_list_state = false;
  black_list_timeout = pos 0;
}

abbrev waiting : QueueEntry
waiting = record {
  packet = record { uid = 5; deferred_tag = some (negsuc 0) };
  header = record { source = 11; destination = 9; protocol = 6; ttl = 64 };
  ucb = 1;
  ecb = 2;
  expire = pos 30000;
}

abbrev searching : Protocol ℤ
searching = record {
  discovery = record {
    table = record { routes = (9, sought) ∷ []; multipath = []; bad_link_lifetime = pos 15000 };
    id_cache = record { id_cache = []; lifetime = pos 5600 };
    socket_addresses = (1, wlan) ∷ [];
    address_req_timer = (9, pos 2800) ∷ [];
    request_id = 4;
    seq_no = 6;
    rreq_count = 3;
    last_bcast_time = pos 0;
  };
  queue = record { queue = waiting ∷ []; max_len = 64; queue_timeout = pos 30000 };
  neighbors = Nb.init (pos 50);
  packets = record { id_cache = []; lifetime = pos 1000 };
  rerr_count = 0;
  is_rerr_timer_running = true;
  multipath_enabled = false;
  subnet_broadcast_addresses = (2, wlan) ∷ [];
  htimer = some (pos 1000);
  path_quality_timer = none;
  residual_energy = pos 100;
  network_context = record {
    node_density = pos 5;
    mobility_level = pos 5;
    energy_criticality = pos 5;
    traffic_criticality = pos 5;
  };
  current_weights = record {
    hop_weight = pos 4;
    energy_weight = pos 2;
    rssi_weight = pos 2;
    stability_weight = pos 2;
  };
}

abbrev by_12 : Ipv4Route
by_12 = record { destination = 9; gateway = 12; source = 11; output_device = 1 }

send_packet_from_queue-flush_example :
    send_packet_from_queue node (pos 5) 9 by_12 searching
    ≡ some (
      record searching {
        queue = record searching.queue {
          queue = (flush node 9 by_12 (live (pos 5) searching.queue)).0;
        };
      },
      map dropped (expired (pos 5) searching.queue)
          ++ (flush node 9 by_12 (live (pos 5) searching.queue)).1,
    )
send_packet_from_queue-flush_example = send_packet_from_queue-flush node (pos 5) 9 by_12 searching

-- The waiting packet goes out.
sent_at_once :
    send_packet_from_queue node (pos 5) 9 by_12 searching
    ≡ some (
      record searching { queue = record searching.queue { queue = [] } },
      forward by_12 waiting ∷ [],
    )
unfolding send_packet_from_queue has_destination is_elsewhere is_expired ◌-ℤ◌ drop_if
sent_at_once = refl

send_packet_from_queue_undisturbed_example :
    send_packet_from_queue node (pos 5) 9 by_12 searching
    ≡ some (
      record searching {
        queue = record searching.queue {
          queue = remove_if (has_destination 9) (live (pos 5) searching.queue);
        };
      },
      map dropped (expired (pos 5) searching.queue)
          ++ map
              (forward by_12)
              (remove_if (λ e. not (has_destination 9 e)) (live (pos 5) searching.queue)),
    )
unfolding is_elsewhere is_expired has_destination ◌-ℤ◌
send_packet_from_queue_undisturbed_example =
    send_packet_from_queue_undisturbed node (pos 5) 9 by_12 searching (refl, tt)

searching-IsValid : IsValid (table_of searching)
searching-IsValid = record { sorted = tt; keyed = ground arith }

searching-IsSafe : IsSafe node searching
searching-IsSafe = record {
  table = searching-IsValid;
  queue = record { positive = omega arith; bounded = omega arith; distinct = ground arith };
  requests = omega arith;
  errors = omega arith;
  requests_fit = omega arith;
  errors_fit = omega arith;
}

attributes-IsSane : IsSane attributes
attributes-IsSane = record {
  starts = omega arith;
  byte = omega arith;
  widens = omega arith;
  threshold = omega arith;
  fits = omega arith;
}

-- One of the two retries is left: the second expiry ends the search.
expiries-end_example : Returns (expiries node 9 (pos 3000 ∷ pos 9000 ∷ []) searching) (GivenUp 9)
unfolding find
expiries-end_example =
    expiries-end node 9 (pos 3000 ∷ pos 9000 ∷ []) searching 1 attributes-IsSane (omega arith)
      (omega arith) searching-IsValid (sought, refl, refl, omega arith, omega arith, omega arith)
      (omega arith)

abbrev reply : RrepHeader
reply = record {
  flags = 0;
  prefix_size = 0;
  hop_count = 3;
  dst = 9;
  dst_seq_no = 7;
  origin = 11;
  life_time = 5000;
}

-- The reply's number is older than the one that is known, and its route is taken all the same.
recv_route_reply-completes_example :
    Returns (recv_route_reply node (pos 5) reply 11 12 30 searching) (λ r.
      (find 9 (table_of r.0).routes ≡ some (offer node (pos 5) reply 11 12))
      × (find 9 r.0.discovery.address_req_timer ≡ none)
      × (r.0.queue.queue
          ≡ (flush node 9 (offer node (pos 5) reply 11 12).route (live (pos 5) searching.queue)).0)
      × (r.1
          ≡ map dropped (expired (pos 5) searching.queue)
            ++ (flush node 9
                (offer node (pos 5) reply 11 12).route
                (live (pos 5) searching.queue)).1))
unfolding find is_my_own_address get_ack_required has_run_out offer ◌-ℤ◌ ◌+ℤ◌
recv_route_reply-completes_example =
    recv_route_reply-completes node (pos 5) reply 11 12 30 sought searching searching-IsValid refl
      refl refl refl refl

abbrev request : RreqHeader
request = record {
  flags = 0;
  reserved = 0;
  hop_count = 2;
  request_id = 77;
  dst = 11;
  dst_seq_no = 7;
  origin = 30;
  origin_seq_no = 5;
}

is_current-reply_seq_no_example :
    is_current (reply_seq_no 6 request) 7 ≡ (is_current 6 7 || 7 == (6 + 1) % 2 ^ 32)
unfolding get_unknown_seqno
is_current-reply_seq_no_example = is_current-reply_seq_no 6 request (omega arith) (omega arith) refl

-- Two behind: the reply is older than the request.
too_old : is_current (reply_seq_no 5 request) 7 ≡ false
unfolding reply_seq_no is_current get_unknown_seqno
too_old = refl

abbrev faster : PathInfo ℤ
faster = record (default_path (pos 0)) { next_hop = 12; hop_count = 1; is_valid = true }

abbrev slower : PathInfo ℤ
slower = record (default_path (pos 0)) { next_hop = 13; hop_count = 4; is_valid = true }

ltb_irreflexive : (a : ℤ) → ltb_ℤ a a ≡ false
ltb_irreflexive a = ground arith

ltb_transitive : (a b c : ℤ) → ltb_ℤ a b ≡ true → ltb_ℤ b c ≡ true → ltb_ℤ a c ≡ true
ltb_transitive a b c h k = ground arith

abbrev rated : PathInfo ℤ → ℤ
rated p = calculate_composite_score searching.current_weights p

abbrev chosen : PathInfo ℤ
chosen = select_best_path_by_metrics (pos 0) searching.current_weights (slower ∷ faster ∷ [])

select_best_path_by_metrics-best_example :
    (Mem chosen (slower ∷ faster ∷ [])
      × (chosen.is_valid ≡ true)
      × (ltb_ℤ (rated chosen) (pos 0) ≡ false)
      × All (λ q. q.is_valid && ltb_ℤ (rated chosen) (rated q) ≡ false) (slower ∷ faster ∷ []))
    ⊎ ((chosen ≡ default_path (pos 0))
        × ((b : ℤ) × (ltb_ℤ b (pos 0) ≡ true)
            × All (λ q. q.is_valid && ltb_ℤ b (rated q) ≡ false) (slower ∷ faster ∷ [])))
select_best_path_by_metrics-best_example =
    select_best_path_by_metrics-best ltb_irreflexive ltb_transitive (pos 0)
      searching.current_weights (slower ∷ faster ∷ []) refl

-- What a call that returns leaves.
abbrev left : Option (Protocol ℤ × List Output) → Protocol ℤ × List Output
left none = (searching, [])
left (some r) = r

abbrev heard : Protocol ℤ × List Output
heard = left (recv_request node (pos 5) request 11 12 20 searching)

abbrev copy : RreqHeader
copy = record request { hop_count = 5 }

abbrev between : List Arrival
between = record { time = pos 700; header = copy; receiver = 11; src = 13; ttl = 9 } ∷ []

abbrev reached : Option (Protocol ℤ) → Protocol ℤ
reached none = searching
reached (some s) = s

abbrev arrived : Protocol ℤ
arrived = reached (after_requests node between heard.0)

-- A third copy.
recv_request-once_example : Returns (recv_request node (pos 900) copy 11 13 9 arrived) (λ r.
    (r.1 ≡ []) × (table_of r.0 ≡ purge (pos 900) (table_of arrived)) × (r.0.queue ≡ arrived.queue))
unfolding is_blacklisted lookup_route has_run_out ◌-ℤ◌ is_duplicate recv_request Nb.init ◌+ℤ◌ ◌*ℤ◌
    after_requests
recv_request-once_example =
    recv_request-once node (pos 5) (pos 900) request copy 11 11 12 13 20 9 between searching heard.0
      arrived heard.1 refl refl refl (ground arith) refl refl refl (ground arith)

abbrev retried : Protocol ℤ × List Output
retried = left (run node (pos 3000) (retries 9) searching)

Reach-IsSafe_example : IsSafe node retried.0
unfolding run has_run_out ◌-ℤ◌ ◌+ℤ◌
Reach-IsSafe_example =
    Reach-IsSafe node searching retried.0 ([] ++ retried.1) searching-IsSafe
      (Reach.next (pos 3000) (retries 9) Reach.begin refl)

abbrev emptied : Interface
emptied = record {
  address = wlan;
  addresses = 0;
  is_up = true;
  arp_cache = none;
  has_adhoc_mac = true;
  socket = 3;
  broadcast_socket = 4;
}

-- The last address is removed: the table is cleared, and the closed broadcast socket is kept.
kept_socket :
    (notify_remove_address node (pos 5) emptied wlan searching).subnet_broadcast_addresses
    ≡ (2, wlan) ∷ []
unfolding notify_remove_address
kept_socket = refl

-- It comes up again, with a route to its broadcast address.
back_up :
    map
      (λ e. e.0)
      (table_of (
        notify_interface_up node
          (pos 5)
          emptied
          (notify_remove_address node (pos 5) emptied wlan searching))).routes
    ≡ 255 ∷ []
unfolding notify_interface_up notify_remove_address
back_up = refl
