-- ===== src/RouteEntry.antt =====
-- `RoutingTableEntry` of aodv-rtable.h and aodv-rtable.cc. The route object that an entry points to
-- is held by value: after each change through the pointer the protocol writes the entry back. The
-- RREP_ACK timer is left out: no code schedules it.
pub mod Precursors
use fp_jaringan_nirkabel.Base.{
  ℕ, ◌+◌, ◌%◌, ◌^◌, ◌==◌, ◌&&◌, Bool, true, false, List, [], ◌∷◌, ◌++◌, if◌then◌else◌, ◌+ℤ◌, ◌-ℤ◌,
  remove_if, any,
}
use fp_jaringan_nirkabel.Net.{Time}

pub data RouteFlags : Type 0 where
  valid invalid in_search : RouteFlags

unfoldable pub is_valid : RouteFlags → Bool
is_valid valid = true
is_valid invalid = false
is_valid in_search = false

unfoldable pub is_invalid : RouteFlags → Bool
is_invalid valid = false
is_invalid invalid = true
is_invalid in_search = false

unfoldable pub is_in_search : RouteFlags → Bool
is_in_search valid = false
is_in_search invalid = false
is_in_search in_search = true

-- `Ipv4InterfaceAddress`, by the fields that the program reads; two that agree in these are equal.
pub record InterfaceAddress : Type 0 where
  pub local : ℕ
  pub mask : ℕ
  pub broadcast : ℕ

unfoldable pub is_interface : InterfaceAddress → InterfaceAddress → Bool
is_interface a b = a.local == b.local && a.mask == b.mask && a.broadcast == b.broadcast

pub record Ipv4Route : Type 0 where
  pub destination : ℕ
  pub gateway : ℕ
  pub source : ℕ
  pub output_device : ℕ

pub record RoutingTableEntry : Type 0 where
  pub valid_seq_no : Bool
  pub seq_no : ℕ
  pub hops : ℕ
  pub life_time : Time
  pub route : Ipv4Route
  pub interface : InterfaceAddress
  pub flag : RouteFlags
  pub precursor_list : List ℕ
  pub req_count : ℕ
  pub black_list_state : Bool
  pub black_list_timeout : Time

unfoldable pub new_entry :
    Time → ℕ → ℕ → Bool → ℕ → InterfaceAddress → ℕ → ℕ → Time → RoutingTableEntry
new_entry now dev dst valid_seq_no seq_no interface hops next_hop lifetime = record {
  valid_seq_no = valid_seq_no;
  seq_no = seq_no;
  hops = hops;
  life_time = lifetime +ℤ now;
  route = record {
    destination = dst;
    gateway = next_hop;
    source = interface.local;
    output_device = dev;
  };
  interface = interface;
  flag = valid;
  precursor_list = [];
  req_count = 0;
  black_list_state = false;
  black_list_timeout = now;
}

unfoldable pub lookup_precursor : ℕ → RoutingTableEntry → Bool
lookup_precursor id e = any (λ i. i == id) e.precursor_list

unfoldable pub insert_precursor : ℕ → RoutingTableEntry → RoutingTableEntry × Bool
unfolding lookup_precursor
insert_precursor id e =
    if lookup_precursor id e
    then (e, false)
    else (record e { precursor_list = e.precursor_list ++ id ∷ [] }, true)

-- `std::remove` moves its end exactly when the list has the address.
unfoldable pub delete_precursor : ℕ → RoutingTableEntry → RoutingTableEntry × Bool
delete_precursor id e =
    if any (λ i. i == id) e.precursor_list
    then (record e { precursor_list = remove_if (λ i. i == id) e.precursor_list }, true)
    else (e, false)

unfoldable pub delete_all_precursors : RoutingTableEntry → RoutingTableEntry
delete_all_precursors e = record e { precursor_list = [] }

unfoldable pub is_precursor_list_empty : List ℕ → Bool
is_precursor_list_empty [] = true
is_precursor_list_empty (i ∷ is) = false

-- The loop of `GetPrecursors`: what the caller's list lacks goes to its end.
unfoldable pub collect : List ℕ → List ℕ → List ℕ
collect [] prec = prec
collect (i ∷ is) prec = collect is (if any (λ j. j == i) prec then prec else prec ++ i ∷ [])

unfoldable pub get_precursors : RoutingTableEntry → List ℕ → List ℕ
unfolding collect is_precursor_list_empty
get_precursors e prec =
    if is_precursor_list_empty e.precursor_list then prec else collect e.precursor_list prec

unfoldable pub invalidate : Time → Time → RoutingTableEntry → RoutingTableEntry
unfolding is_invalid
invalidate now bad_link_lifetime e =
    if is_invalid e.flag
    then e
    else record e { flag = invalid; req_count = 0; life_time = bad_link_lifetime +ℤ now }

unfoldable pub set_next_hop : ℕ → RoutingTableEntry → RoutingTableEntry
set_next_hop next_hop e = let r = e.route in record e { route = record r { gateway = next_hop } }

unfoldable pub set_output_device : ℕ → RoutingTableEntry → RoutingTableEntry
set_output_device dev e = let r = e.route in record e { route = record r { output_device = dev } }

unfoldable pub set_interface : InterfaceAddress → RoutingTableEntry → RoutingTableEntry
set_interface interface e = record e { interface = interface }

unfoldable pub set_valid_seq_no : Bool → RoutingTableEntry → RoutingTableEntry
set_valid_seq_no s e = record e { valid_seq_no = s }

unfoldable pub set_seq_no : ℕ → RoutingTableEntry → RoutingTableEntry
set_seq_no sn e = record e { seq_no = sn }

unfoldable pub set_hop : ℕ → RoutingTableEntry → RoutingTableEntry
set_hop hop e = record e { hops = hop }

unfoldable pub set_life_time : Time → Time → RoutingTableEntry → RoutingTableEntry
set_life_time now lt e = record e { life_time = lt +ℤ now }

unfoldable pub get_life_time : Time → RoutingTableEntry → Time
get_life_time now e = e.life_time -ℤ now

unfoldable pub set_flag : RouteFlags → RoutingTableEntry → RoutingTableEntry
set_flag flag e = record e { flag = flag }

unfoldable pub set_rreq_cnt : ℕ → RoutingTableEntry → RoutingTableEntry
set_rreq_cnt n e = record e { req_count = n }

-- `uint8_t m_reqCount++`
unfoldable pub increment_rreq_cnt : RoutingTableEntry → RoutingTableEntry
increment_rreq_cnt e = record e { req_count = (e.req_count + 1) % 2 ^ 8 }

unfoldable pub set_unidirectional : Bool → RoutingTableEntry → RoutingTableEntry
set_unidirectional u e = record e { black_list_state = u }

unfoldable pub set_blacklist_timeout : Time → RoutingTableEntry → RoutingTableEntry
set_blacklist_timeout t e = record e { black_list_timeout = t }

unfoldable pub set_route : Ipv4Route → RoutingTableEntry → RoutingTableEntry
set_route r e = record e { route = r }
