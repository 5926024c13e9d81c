-- ===== src/RoutingTable/Invariant.antt =====
-- The routing table's order and keys: one route to a destination, stored under it.
use fp_jaringan_nirkabel.Base.{
  ℕ, ◌≡◌, ◌==◌, refl, none, some, [], ◌∷◌, All, arith, ◌&&◌, ◌∙◌, Option, remove_if_keeps,
  if◌then◌else◌, OnSome, Option-cases, inl, inr,
}
use fp_jaringan_nirkabel.AddressMap.{
  AddressMap, find, insert, add, modify, erase, update_all, IsSorted,
}
use fp_jaringan_nirkabel.AddressMap.Laws.{
  update_all-IsSorted, modify-IsSorted, insert-IsSorted, erase-IsSorted,
}
use fp_jaringan_nirkabel.Net.{Time}
use fp_jaringan_nirkabel.Platform.{Platform}
use fp_jaringan_nirkabel.RouteEntry.{
  RouteFlags, InterfaceAddress, RoutingTableEntry, set_rreq_cnt, set_flag, is_valid, invalidate,
  is_interface,
}
use fp_jaringan_nirkabel.RoutingTable.{
  RoutingTable, purge_entry, purge_expired, purge_routes, purge, purge_multipath_routes,
  delete_route, stored, add_route, update, set_entry_state, invalidate_if_listed,
  invalidate_routes_with_dst, delete_all_routes_from_interface, mark_link_as_unidirectional,
}

-- Each route is stored under its destination.
abbrev pub Keyed : AddressMap RoutingTableEntry → Type 0
Keyed = All λ r. r.1.route.destination ≡ r.0

pub destination-find :
    (k : ℕ) (m : AddressMap RoutingTableEntry) (e : RoutingTableEntry)
    → Keyed m
    → find k m ≡ some e
    → e.route.destination ≡ k
unfolding find
destination-find k [] e keyed h = absurd (cc)
destination-find k ((j, x) ∷ m) e keyed h = ground (arith, destination-find k m e keyed.1)

update_all-Keyed :
    (f : ℕ → RoutingTableEntry → Option RoutingTableEntry) (m : AddressMap RoutingTableEntry)
    → ((dst : ℕ) (e : RoutingTableEntry)
        → OnSome (f dst e) (λ e'. e'.route.destination ≡ e.route.destination))
    → Keyed m
    → Keyed (update_all f m)
unfolding update_all
update_all-Keyed f [] keeps k = tt
update_all-Keyed f ((dst, e) ∷ m) keeps k =
    ground (arith, keeps dst e, update_all-Keyed f m keeps k.1)

modify-Keyed :
    (dst : ℕ) (f : RoutingTableEntry → RoutingTableEntry) (m : AddressMap RoutingTableEntry)
    → ((e : RoutingTableEntry) → e.route.destination ≡ dst → (f e).route.destination ≡ dst)
    → Keyed m
    → Keyed (modify dst f m)
unfolding modify
modify-Keyed dst f [] keeps k = tt
modify-Keyed dst f ((j, e) ∷ m) keeps k = ground (arith, keeps e, modify-Keyed dst f m keeps k.1)

add-Keyed :
    (dst : ℕ) (e : RoutingTableEntry) (m : AddressMap RoutingTableEntry)
    → e.route.destination ≡ dst
    → Keyed m
    → Keyed (add dst e m)
unfolding add
add-Keyed dst e [] h k = (h, tt)
add-Keyed dst e ((j, x) ∷ m) h k = ground (arith, add-Keyed dst e m h k.1)

insert-Keyed :
    (dst : ℕ) (e : RoutingTableEntry) (m : AddressMap RoutingTableEntry)
    → e.route.destination ≡ dst
    → Keyed m
    → Keyed (insert dst e m)
unfolding insert
insert-Keyed dst e m h k = ground (arith, add-Keyed dst e m h k)

erase-Keyed : (dst : ℕ) (m : AddressMap RoutingTableEntry) → Keyed m → Keyed (erase dst m)
unfolding erase
erase-Keyed dst m k = remove_if_keeps (λ e. e.0 == dst) (λ r. r.1.route.destination ≡ r.0) m k

pub record IsValid {D : Type 0} (t : RoutingTable D) : Type 0 where
  pub sorted : IsSorted t.routes
  pub keyed : Keyed t.routes

purge_entry-keeps :
    (now bad : Time) (dst : ℕ) (e : RoutingTableEntry)
    → OnSome (purge_entry now bad dst e) (λ e'. e'.route.destination ≡ e.route.destination)
unfolding purge_entry purge_expired
purge_entry-keeps now bad dst e = ground arith

pub destination-stored :
    (e : RoutingTableEntry) → (stored e).route.destination ≡ e.route.destination
unfolding stored
destination-stored e = ground arith

destination-invalidate_if_listed :
    (now bad : Time) (unreachable : AddressMap ℕ) (dst : ℕ) (e : RoutingTableEntry)
    → (invalidate_if_listed now bad unreachable dst e).route.destination ≡ e.route.destination
unfolding invalidate_if_listed invalidate
destination-invalidate_if_listed now bad [] dst e = refl
destination-invalidate_if_listed now bad ((k, _) ∷ us) dst e =
    destination-invalidate_if_listed now bad us dst
      (if dst == k && is_valid e.flag then invalidate now bad e else e)
    ∙ head
  where
    head :
        (if dst == k && is_valid e.flag then invalidate now bad e else e).route.destination
        ≡ e.route.destination
    head = ground arith

kept_destination :
    (interface : InterfaceAddress) (e : RoutingTableEntry)
    → OnSome
        (if is_interface e.interface interface then none else some e)
        (λ e'. e'.route.destination ≡ e.route.destination)
kept_destination interface e = ground arith

-- The operations that write the table of routes.
pub data Operation : Type 0 where
  purges : Operation
  adds updates : RoutingTableEntry → Operation
  deletes : ℕ → Operation
  sets_state : ℕ → RouteFlags → Operation
  invalidates : AddressMap ℕ → Operation
  deletes_interface : InterfaceAddress → Operation
  marks : ℕ → Time → Operation

module _ {D : Type 0} ⦃o : Platform D⦄ where
  -- The routes after a purge, also where the code returns early.
  pub routes-purge :
      (now : Time) (t : RoutingTable D)
      → (purge now t).routes ≡ update_all (purge_entry now t.bad_link_lifetime) t.routes
  unfolding purge update_all purge_routes purge_multipath_routes
  routes-purge now t = ground arith

  pub bad_link_lifetime-purge :
      (now : Time) (t : RoutingTable D) → (purge now t).bad_link_lifetime ≡ t.bad_link_lifetime
  unfolding purge purge_multipath_routes
  bad_link_lifetime-purge now t = ground arith

  pub purge-IsValid : (now : Time) (t : RoutingTable D) → IsValid t → IsValid (purge now t)
  purge-IsValid now t v = record {
    sorted = rw (routes-purge now t) (update_all-IsSorted _ t.routes v.sorted);
    keyed =
        rw (routes-purge now t)
          (update_all-Keyed _ t.routes (purge_entry-keeps now t.bad_link_lifetime) v.keyed);
  }

  unfoldable pub perform : Time → Operation → RoutingTable D → RoutingTable D
  perform now purges t = purge now t
  perform now (adds e) t = (add_route now e t).0
  perform now (updates e) t = (update e t).0
  perform now (deletes dst) t = (delete_route now dst t).0
  perform now (sets_state dst state) t = (set_entry_state dst state t).0
  perform now (invalidates unreachable) t = invalidate_routes_with_dst now unreachable t
  perform now (deletes_interface interface) t = delete_all_routes_from_interface interface t
  perform now (marks neighbor timeout) t = (mark_link_as_unidirectional neighbor timeout t).0

  pub add_route-IsValid :
      (now : Time) (e : RoutingTableEntry) (t : RoutingTable D)
      → IsValid t
      → IsValid (add_route now e t).0
  unfolding add_route
  add_route-IsValid now e t v =
      let p = purge-IsValid now t v in
      let dst = e.route.destination in
      elim (Option-cases (find dst (purge now t).routes)) [
        | inl new ↦
            rw (new, add_route)
              (record {
                sorted = insert-IsSorted dst (stored e) (purge now t).routes p.sorted;
                keyed =
                    insert-Keyed dst (stored e) (purge now t).routes (destination-stored e) p.keyed;
              })
        | inr (old, there) ↦ rw (there, add_route) p
      ]

  pub delete_route-IsValid :
      (now : Time) (dst : ℕ) (t : RoutingTable D) → IsValid t → IsValid (delete_route now dst t).0
  unfolding delete_route
  delete_route-IsValid now dst t v =
      let p = purge-IsValid now t v in
      elim (Option-cases (find dst (purge now t).routes)) [
        | inl new ↦ rw (new, delete_route) p
        | inr (old, there) ↦
            rw (there, delete_route)
              (record {
                sorted = erase-IsSorted dst (purge now t).routes p.sorted;
                keyed = erase-Keyed dst (purge now t).routes p.keyed;
              })
      ]

  -- A write to the entry of one destination.
  modified-IsValid :
      (dst : ℕ) (f : RoutingTableEntry → RoutingTableEntry) (t : RoutingTable D)
      → ((e : RoutingTableEntry) → e.route.destination ≡ dst → (f e).route.destination ≡ dst)
      → IsValid t
      → IsValid (record t { routes = modify dst f t.routes })
  modified-IsValid dst f t keeps v = record {
    sorted = modify-IsSorted dst f t.routes v.sorted;
    keyed = modify-Keyed dst f t.routes keeps v.keyed;
  }

  looped-IsValid :
      (f : ℕ → RoutingTableEntry → Option RoutingTableEntry) (t : RoutingTable D)
      → ((dst : ℕ) (e : RoutingTableEntry)
          → OnSome (f dst e) (λ e'. e'.route.destination ≡ e.route.destination))
      → IsValid t
      → IsValid (record t { routes = update_all f t.routes })
  looped-IsValid f t keeps v = record {
    sorted = update_all-IsSorted f t.routes v.sorted;
    keyed = update_all-Keyed f t.routes keeps v.keyed;
  }

  pub update-IsValid :
      (e : RoutingTableEntry) (t : RoutingTable D) → IsValid t → IsValid (update e t).0
  unfolding update
  update-IsValid e t v = elim (Option-cases (find e.route.destination t.routes)) [
    | inl new ↦ rw (new, update) v
    | inr (old, there) ↦
        rw (there, update)
          (modified-IsValid e.route.destination (λ _. stored e) t (λ _ _. destination-stored e) v)
  ]

  set_entry_state-IsValid :
      (dst : ℕ) (state : RouteFlags) (t : RoutingTable D)
      → IsValid t
      → IsValid (set_entry_state dst state t).0
  unfolding set_entry_state set_rreq_cnt set_flag
  set_entry_state-IsValid dst state t v = elim (Option-cases (find dst t.routes)) [
    | inl new ↦ rw (new, set_entry_state) v
    | inr (old, there) ↦
        rw (there, set_entry_state)
          (modified-IsValid dst (λ e. set_rreq_cnt 0 (set_flag state e)) t (λ e h. h) v)
  ]

  pub mark-IsValid :
      (neighbor : ℕ) (timeout : Time) (t : RoutingTable D)
      → IsValid t
      → IsValid (mark_link_as_unidirectional neighbor timeout t).0
  unfolding mark_link_as_unidirectional
  mark-IsValid neighbor timeout t v = elim (Option-cases (find neighbor t.routes)) [
    | inl new ↦ rw (new, mark_link_as_unidirectional) v
    | inr (old, there) ↦
        rw (there, mark_link_as_unidirectional) (modified-IsValid neighbor _ t (λ e h. h) v)
  ]

  -- Every operation keeps the routes in ascending order of their keys, so that no destination has
  -- two, and each under its own destination.
  pub perform-IsValid :
      (now : Time) (op : Operation) (t : RoutingTable D) → IsValid t → IsValid (perform now op t)
  unfolding perform invalidate_routes_with_dst delete_all_routes_from_interface
  perform-IsValid now purges t v = purge-IsValid now t v
  perform-IsValid now (adds e) t v = add_route-IsValid now e t v
  perform-IsValid now (updates e) t v = update-IsValid e t v
  perform-IsValid now (deletes dst) t v = delete_route-IsValid now dst t v
  perform-IsValid now (sets_state dst state) t v = set_entry_state-IsValid dst state t v
  perform-IsValid now (invalidates unreachable) t v =
      looped-IsValid
        (λ dst e. some (invalidate_if_listed now (purge now t).bad_link_lifetime unreachable dst e))
        (purge now t)
        (destination-invalidate_if_listed now (purge now t).bad_link_lifetime unreachable)
        (purge-IsValid now t v)
  perform-IsValid now (deletes_interface interface) t v =
      looped-IsValid (λ dst e. if is_interface e.interface interface then none else some e) t
        (λ dst e. kept_destination interface e) v
  perform-IsValid now (marks neighbor timeout) t v = mark-IsValid neighbor timeout t v
