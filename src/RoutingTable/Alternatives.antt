-- ===== src/RoutingTable/Alternatives.antt =====
-- The methods of `RoutingTable` on the table of alternative paths, and its plain setters.
use fp_jaringan_nirkabel.Base.{ℕ, Bool, true, false, Option, none, some, List, [], if◌then◌else◌}
use fp_jaringan_nirkabel.AddressMap.{find, modify, assign, erase}
use fp_jaringan_nirkabel.Net.{Time}
use fp_jaringan_nirkabel.Platform.{Platform}
use fp_jaringan_nirkabel.Multipath.{
  PathInfo, new_entry, add_path, remove_path, get_best_path, get_all_paths, has_valid_path,
}
use fp_jaringan_nirkabel.RoutingTable.{RoutingTable}

module _ {D : Type 0} ⦃o : Platform D⦄ where
  unfoldable pub add_multipath_route : Time → ℕ → ℕ → ℕ → Time → RoutingTable D → RoutingTable D
  unfolding find assign modify add_path new_entry
  add_multipath_route now dst next_hop hop_count lifetime t = elim (find dst t.multipath) [
    | none ↦ record t {
      multipath = assign dst (add_path now next_hop hop_count lifetime (new_entry dst)) t.multipath;
    }
    | some e ↦ record t {
      multipath = modify dst (add_path now next_hop hop_count lifetime) t.multipath;
    }
  ]

  -- The path is a result only where the C++ code returns true.
  unfoldable pub get_best_multipath_route :
      Time → ℕ → RoutingTable D → RoutingTable D × Option (PathInfo D)
  unfolding find modify get_best_path
  get_best_multipath_route now dst t = elim (find dst t.multipath) [
    | none ↦ (t, none)
    | some e ↦
        let best = (get_best_path now e).1 in
        let t' = record t { multipath = modify dst (λ e. (get_best_path now e).0) t.multipath } in
        (t', if best.is_valid then some best else none)
  ]

  unfoldable pub get_all_multipath_routes :
      Time → ℕ → RoutingTable D → RoutingTable D × List (PathInfo D)
  unfolding find modify get_all_paths
  get_all_multipath_routes now dst t = elim (find dst t.multipath) [
    | none ↦ (t, [])
    | some e ↦ (
      record t { multipath = modify dst (λ e. (get_all_paths now e).0) t.multipath },
      (get_all_paths now e).1,
    )
  ]

  unfoldable pub has_multipath_route : Time → ℕ → RoutingTable D → RoutingTable D × Bool
  unfolding find modify has_valid_path
  has_multipath_route now dst t = elim (find dst t.multipath) [
    | none ↦ (t, false)
    | some e ↦ (
      record t { multipath = modify dst (λ e. (has_valid_path now e).0) t.multipath },
      (has_valid_path now e).1,
    )
  ]

  unfoldable pub remove_multipath_route : Time → ℕ → ℕ → RoutingTable D → RoutingTable D × Bool
  unfolding find modify erase remove_path has_valid_path
  remove_multipath_route now dst next_hop t = elim (find dst t.multipath) [
    | none ↦ (t, false)
    | some e ↦
        let (e', usable) = has_valid_path now (remove_path next_hop e) in
        (
          record t {
            multipath = if usable then modify dst (λ _. e') t.multipath else erase dst t.multipath;
          },
          true,
        )
  ]

  unfoldable pub clear : RoutingTable D → RoutingTable D
  clear t = record t { routes = [] }

  unfoldable pub set_bad_link_lifetime : Time → RoutingTable D → RoutingTable D
  set_bad_link_lifetime bad t = record t { bad_link_lifetime = bad }
