-- ===== src/RoutingTable.antt =====
-- `RoutingTable` of aodv-rtable.h and aodv-rtable.cc: the routes, one to a destination, and the
-- table of alternative paths beside them. `Simulator::Now()` is an argument.
pub mod Invariant
pub mod Lookup
pub mod Links
pub mod Alternatives
mod Tests
use fp_jaringan_nirkabel.Base.{
  ℕ, ◌==◌, ◌&&◌, Bool, true, false, not, Option, none, some, List, [], ◌∷◌, ◌++◌, map,
  if◌then◌else◌, pos, ltb_ℤ, any,
}
use fp_jaringan_nirkabel.AddressMap.{AddressMap, find, insert, modify, erase, update_all}
use fp_jaringan_nirkabel.Net.{Time}
use fp_jaringan_nirkabel.Platform.{Platform}
use fp_jaringan_nirkabel.RouteEntry.{
  RouteFlags, valid, invalid, in_search, is_valid, is_in_search, InterfaceAddress, is_interface,
  RoutingTableEntry, invalidate, get_life_time, set_flag, set_rreq_cnt,
}
use fp_jaringan_nirkabel.Multipath.{MultipathRouteEntry, get_best_path, has_valid_path}

pub record RoutingTable (D : Type 0) : Type 0 where
  pub routes : AddressMap RoutingTableEntry
  pub multipath : AddressMap (MultipathRouteEntry D)
  pub bad_link_lifetime : Time

-- One node of the loop in `Purge`, which it erases, invalidates or keeps by the route's flag.
unfoldable pub purge_expired :
    Time → Time → RouteFlags → RoutingTableEntry → Option RoutingTableEntry
unfolding invalidate
purge_expired now bad invalid e = none
purge_expired now bad valid e = some (invalidate now bad e)
purge_expired now bad in_search e = some e

unfoldable pub has_run_out : Time → RoutingTableEntry → Bool
unfolding get_life_time
has_run_out now e = ltb_ℤ (get_life_time now e) (pos 0)

unfoldable pub purge_entry : Time → Time → ℕ → RoutingTableEntry → Option RoutingTableEntry
unfolding purge_expired
purge_entry now bad dst e = if has_run_out now e then purge_expired now bad e.flag e else some e

-- `Purge(table)`, which `Print` applies to a copy.
unfoldable pub purge_routes :
    Time → Time → AddressMap RoutingTableEntry → AddressMap RoutingTableEntry
unfolding update_all purge_entry
purge_routes now bad = update_all (purge_entry now bad)

unfoldable pub if_valid : Option RoutingTableEntry → Option RoutingTableEntry
unfolding is_valid
if_valid none = none
if_valid (some e) = if is_valid e.flag then some e else none

-- The entry as it is stored: only a route in search keeps its count of requests.
unfoldable pub stored : RoutingTableEntry → RoutingTableEntry
unfolding set_rreq_cnt is_in_search
stored e = if is_in_search e.flag then e else set_rreq_cnt 0 e

-- The loop of `GetListOfDestinationWithNextHop`.
unfoldable pub via : ℕ → AddressMap RoutingTableEntry → AddressMap ℕ → AddressMap ℕ
unfolding find insert
via next_hop [] unreachable = unreachable
via next_hop ((dst, e) ∷ m) unreachable =
    via next_hop m
      (if e.route.gateway == next_hop then insert dst e.seq_no unreachable else unreachable)

-- The inner loop of `InvalidateRoutesWithDst`.
unfoldable pub invalidate_if_listed :
    Time → Time → AddressMap ℕ → ℕ → RoutingTableEntry → RoutingTableEntry
unfolding invalidate is_valid
invalidate_if_listed now bad [] dst e = e
invalidate_if_listed now bad ((k, _) ∷ unreachable) dst e =
    invalidate_if_listed now bad unreachable dst
      (if dst == k && is_valid e.flag then invalidate now bad e else e)

module _ {D : Type 0} ⦃o : Platform D⦄ where
  unfoldable pub purge_paths : Time → ℕ → MultipathRouteEntry D → Option (MultipathRouteEntry D)
  unfolding get_best_path has_valid_path
  purge_paths now dst e =
      let (e', usable) = has_valid_path now (get_best_path now e).0 in
      if usable then some e' else none

  unfoldable pub purge_multipath_routes : Time → RoutingTable D → RoutingTable D
  unfolding update_all purge_paths
  purge_multipath_routes now t = record t { multipath = update_all (purge_paths now) t.multipath }

  unfoldable pub purge : Time → RoutingTable D → RoutingTable D
  unfolding purge_routes purge_multipath_routes
  purge now t = elim t.routes [
    | [] ↦ t
    | r ∷ rs ↦
        purge_multipath_routes now
          (record t { routes = purge_routes now t.bad_link_lifetime t.routes })
  ]

  -- A copy of the entry, where the C++ code fills a variable and returns true.
  unfoldable pub lookup_route :
      Time → ℕ → RoutingTable D → RoutingTable D × Option RoutingTableEntry
  unfolding purge find
  lookup_route now id t = let t' = purge now t in (t', find id t'.routes)

  -- The result is `none` where the C++ code returns false; `LookupRoute` tells what it leaves in
  -- the caller's variable then.
  unfoldable pub lookup_valid_route :
      Time → ℕ → RoutingTable D → RoutingTable D × Option RoutingTableEntry
  unfolding lookup_route if_valid
  lookup_valid_route now id t = let (t', found) = lookup_route now id t in (t', if_valid found)

  unfoldable pub delete_route : Time → ℕ → RoutingTable D → RoutingTable D × Bool
  unfolding purge find erase
  delete_route now dst t =
      let t' = purge now t in
      elim (find dst t'.routes) [
        | none ↦ (t', false)
        | some e ↦ (record t' { routes = erase dst t'.routes }, true)
      ]

  unfoldable pub add_route : Time → RoutingTableEntry → RoutingTable D → RoutingTable D × Bool
  unfolding purge find insert stored
  add_route now e t =
      let t' = purge now t in
      elim (find e.route.destination t'.routes) [
        | none ↦ (record t' { routes = insert e.route.destination (stored e) t'.routes }, true)
        | some old ↦ (t', false)
      ]

  unfoldable pub update : RoutingTableEntry → RoutingTable D → RoutingTable D × Bool
  unfolding find modify stored
  update e t = elim (find e.route.destination t.routes) [
    | none ↦ (t, false)
    | some old ↦ (record t { routes = modify e.route.destination (λ _. stored e) t.routes }, true)
  ]

  unfoldable pub set_entry_state : ℕ → RouteFlags → RoutingTable D → RoutingTable D × Bool
  unfolding find modify set_flag set_rreq_cnt
  set_entry_state id state t = elim (find id t.routes) [
    | none ↦ (t, false)
    | some old ↦
        (record t { routes = modify id (λ e. set_rreq_cnt 0 (set_flag state e)) t.routes }, true)
  ]

  unfoldable pub get_list_of_destination_with_next_hop :
      Time → ℕ → RoutingTable D → RoutingTable D × AddressMap ℕ
  unfolding purge via
  get_list_of_destination_with_next_hop now next_hop t =
      let t' = purge now t in (t', via next_hop t'.routes [])

  unfoldable pub invalidate_routes_with_dst : Time → AddressMap ℕ → RoutingTable D → RoutingTable D
  unfolding purge update_all invalidate_if_listed
  invalidate_routes_with_dst now unreachable t =
      let t' = purge now t in
      record t' {
        routes =
            update_all
              (λ dst e. some (invalidate_if_listed now t'.bad_link_lifetime unreachable dst e))
              t'.routes;
      }

  unfoldable pub delete_all_routes_from_interface :
      InterfaceAddress → RoutingTable D → RoutingTable D
  unfolding update_all is_interface
  delete_all_routes_from_interface interface t = record t {
    routes =
        update_all (λ dst e. if is_interface e.interface interface then none else some e) t.routes;
  }

  unfoldable pub mark_link_as_unidirectional : ℕ → Time → RoutingTable D → RoutingTable D × Bool
  unfolding find modify
  mark_link_as_unidirectional neighbor timeout t = elim (find neighbor t.routes) [
    | none ↦ (t, false)
    | some old ↦ (
      record t {
        routes =
            modify neighbor
              (λ e. record e {
                black_list_state = true;
                black_list_timeout = timeout;
                req_count = 0;
              })
              t.routes;
      },
      true,
    )
  ]
