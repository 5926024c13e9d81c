-- ===== src/RoutingTable/Tests.antt =====
-- Runs of the routing table and of the path list at concrete times, over natural numbers in place of
-- doubles.
use mathlib.Core.Option as Opt
use mathlib.Core.List.{Mem}
use fp_jaringan_nirkabel.Base.{
  ℕ, ◌≡◌, ◌≢◌, ◌↔◌, ◌⊎◌, ◌==◌, ◌&&◌, ◌||◌, not, ◌≤◌, ◌+◌, ◌-◌, ◌*◌, ◌/◌, ltb, refl, true, false,
  some, none, [], ◌∷◌, pos, pos_part, ◌+ℤ◌, map, All, if◌then◌else◌, ltb_ℤ, arith,
}
use fp_jaringan_nirkabel.AddressMap.{find}
use fp_jaringan_nirkabel.Platform.{Platform}
use fp_jaringan_nirkabel.Metrics.{default_factors}
use fp_jaringan_nirkabel.RouteEntry.{
  valid, in_search, is_valid, InterfaceAddress, RoutingTableEntry, invalidate, insert_precursor,
  delete_precursor, lookup_precursor, get_precursors, RouteFlags, invalid,
}
use fp_jaringan_nirkabel.RouteEntry.Precursors.{Distinct, has, precursor_laws, get_precursors-union}
use fp_jaringan_nirkabel.Multipath.{
  MultipathRouteEntry, live_paths, get_best_path, default_path, rate, new_path,
}
use fp_jaringan_nirkabel.Multipath.Selection.{get_best_path-least}
use fp_jaringan_nirkabel.RoutingTable.{
  RoutingTable, purge, lookup_valid_route, add_route, update, stored, delete_route,
  invalidate_routes_with_dst, get_list_of_destination_with_next_hop,
}
use fp_jaringan_nirkabel.RoutingTable.Invariant.{IsValid, Operation, perform, perform-IsValid}
use fp_jaringan_nirkabel.RoutingTable.Lookup.{
  IsLive, lookup_valid_route_iff, find-add_route, find-update, find-delete_route, purge-lifecycle,
}
use fp_jaringan_nirkabel.RoutingTable.Links.{
  is_listed, find-invalidate_routes_with_dst, find-get_list_of_destination_with_next_hop,
}

instance abbrev numbers : Platform ℕ
numbers = record {
  decimal = λ m k. pos_part m;
  of_ℕ = λ n. n * 10;
  add = ◌+◌;
  sub = ◌-◌;
  mul = ◌*◌;
  div = ◌/◌;
  lt = ltb;
  default_address = 0x66666666;
}

abbrev interface : InterfaceAddress
interface = record { local = 1; mask = 255; broadcast = 254 }

-- To destination `dst` through `hop`, until `expire`.
abbrev route : ℕ → ℕ → RouteFlags → ℕ → RoutingTableEntry
route dst hop flag expire = record {
  valid_seq_no = true;
  seq_no = 4;
  hops = 2;
  life_time = pos expire;
  route = record { destination = dst; gateway = hop; source = 1; output_device = 0 };
  interface = interface;
  flag = flag;
  precursor_list = 5 ∷ 6 ∷ [];
  req_count = 3;
  black_list_state = false;
  black_list_timeout = pos 0;
}

abbrev table : RoutingTable ℕ
table = record {
  routes = (7, route 7 9 valid 20) ∷ (8, route 8 9 in_search 20) ∷ (9, route 9 9 valid 50) ∷ [];
  multipath = [];
  bad_link_lifetime = pos 15;
}

table-IsValid : IsValid table
table-IsValid = record { sorted = omega arith; keyed = ground arith }

perform-IsValid_example : IsValid (perform (pos 30) (Operation.adds (route 6 9 valid 60)) table)
perform-IsValid_example =
    perform-IsValid (pos 30) (Operation.adds (route 6 9 valid 60)) table table-IsValid

lookup_valid_route_iff_example :
    ((lookup_valid_route (pos 30) 9 table).1 ≡ some (route 9 9 valid 50)) ↔ (
      (find 9 table.routes ≡ some (route 9 9 valid 50))
      × (valid ≡ valid)
      × IsLive (pos 30) (route 9 9 valid 50))
lookup_valid_route_iff_example =
    lookup_valid_route_iff (pos 30) 9 table (route 9 9 valid 50) table-IsValid

find-add_route_example :
    let (t', added) = add_route (pos 30) (route 6 9 valid 60) table in
    let before = find 6 (purge (pos 30) table).routes in
    (find 6 t'.routes
      ≡ (if ◌==◌ 6 6 then Opt.or_else before (some (stored (route 6 9 valid 60))) else before))
    × ((added ≡ true) ↔ (find 6 (purge (pos 30) table).routes ≡ none))
find-add_route_example = find-add_route (pos 30) (route 6 9 valid 60) 6 table

find-update_example :
    let (t', done) = update (route 9 4 valid 60) table in
    (find 9 t'.routes ≡ (
      if ◌==◌ 9 9
      then Opt.map (λ _. stored (route 9 4 valid 60)) (find 9 table.routes)
      else find 9 table.routes))
    × ((done ≡ true) ↔ (find 9 table.routes ≢ none))
find-update_example = find-update (route 9 4 valid 60) 9 table

after_deletion :
    let (t', done) = delete_route (pos 30) 9 table in
    (find 7 t'.routes ≡ (if ◌==◌ 9 7 then none else find 7 (purge (pos 30) table).routes))
    × ((done ≡ true) ↔ (find 9 (purge (pos 30) table).routes ≢ none))
after_deletion = find-delete_route (pos 30) 9 7 table

purge-lifecycle_example : find 7 (purge (pos 40) (purge (pos 30) table)).routes ≡ (
    if ltb_ℤ (pos 15 +ℤ pos 30) (pos 40)
    then none
    else some (record (route 7 9 valid 20) {
      flag = invalid;
      req_count = 0;
      life_time = pos 15 +ℤ pos 30;
    }))
unfolding find
purge-lifecycle_example =
    purge-lifecycle (pos 30) (pos 40) 7 table (route 7 9 valid 20) table-IsValid refl refl
      (omega arith)

find-invalidate_routes_with_dst_example :
    find 9 (invalidate_routes_with_dst (pos 30) ((9, 4) ∷ []) table).routes
    ≡ Opt.map
        (λ e.
          if is_listed 9 ((9, 4) ∷ []) && is_valid e.flag
          then invalidate (pos 30) (purge (pos 30) table).bad_link_lifetime e
          else e)
        (find 9 (purge (pos 30) table).routes)
find-invalidate_routes_with_dst_example =
    find-invalidate_routes_with_dst (pos 30) ((9, 4) ∷ []) 9 table table-IsValid

find-get_list_of_destination_with_next_hop_example :
    find 7 (get_list_of_destination_with_next_hop (pos 30) 9 table).1
    ≡ Opt.bind
        (find 7 (purge (pos 30) table).routes)
        (λ e. if e.route.gateway == 9 then some e.seq_no else none)
find-get_list_of_destination_with_next_hop_example =
    find-get_list_of_destination_with_next_hop (pos 30) 9 7 table table-IsValid

-- Two live paths and one that expires at 10.
abbrev paths : MultipathRouteEntry ℕ
paths = record {
  destination = 7;
  paths =
      new_path (pos 0) 3 1 (pos 10)
      ∷ new_path (pos 0) 4 5 (pos 40)
      ∷ new_path (pos 0) 5 2 (pos 40)
      ∷ [];
}

get_best_path-least_example :
    let (e', best) = get_best_path (pos 20) paths in
    (((e'.paths ≡ []) × (best ≡ default_path (pos 20)))
      ⊎ (Mem best e'.paths × All (λ p. best.hop_count ≤ p.hop_count) e'.paths))
    × (e'.paths ≡ map (rate default_factors) (live_paths (pos 20) paths).paths)
    × (e'.destination ≡ 7)
get_best_path-least_example = get_best_path-least (pos 20) paths

precursor_laws_example :
    let (added, fresh) = insert_precursor 6 (route 7 9 valid 20) in
    let (removed, found) = delete_precursor 6 (route 7 9 valid 20) in
    (fresh ≡ not (lookup_precursor 6 (route 7 9 valid 20)))
    × (found ≡ lookup_precursor 6 (route 7 9 valid 20))
    × (lookup_precursor 5 added ≡ (◌==◌ 6 5 || lookup_precursor 5 (route 7 9 valid 20)))
    × (lookup_precursor 5 removed
        ≡ (if ◌==◌ 6 5 then false else lookup_precursor 5 (route 7 9 valid 20)))
    × Distinct added.precursor_list
    × Distinct removed.precursor_list
precursor_laws_example = precursor_laws 6 5 (route 7 9 valid 20) (ground arith)

joined_precursors :
    (has 6 (get_precursors (route 7 9 valid 20) (6 ∷ 2 ∷ []))
      ≡ (has 6 (6 ∷ 2 ∷ []) || lookup_precursor 6 (route 7 9 valid 20)))
    × Distinct (get_precursors (route 7 9 valid 20) (6 ∷ 2 ∷ []))
joined_precursors = get_precursors-union 6 (route 7 9 valid 20) (6 ∷ 2 ∷ []) (ground arith)
