-- ===== src/RoutingTable/Links.antt =====
-- Broken links: which destinations a next hop serves, and the invalidation of their routes.
use mathlib.Core.Option as Opt
use fp_jaringan_nirkabel.Base.{
  ℕ, ◌≡◌, ◌==◌, ◌&&◌, refl, Bool, none, some, [], ◌∷◌, arith, Option, if◌then◌else◌, any, ==_refl,
  ◌∙◌, ap,
}
use fp_jaringan_nirkabel.AddressMap.{AddressMap, find, IsSorted, Above, insert}
use fp_jaringan_nirkabel.AddressMap.Laws.{find-update_all, find-insert, find-Above, Above-IsSorted}
use fp_jaringan_nirkabel.Net.{Time}
use fp_jaringan_nirkabel.Platform.{Platform}
use fp_jaringan_nirkabel.RouteEntry.{is_valid, is_invalid, RoutingTableEntry, invalidate}
use fp_jaringan_nirkabel.RoutingTable.{
  RoutingTable, purge, invalidate_if_listed, invalidate_routes_with_dst, via,
  get_list_of_destination_with_next_hop,
}
use fp_jaringan_nirkabel.RoutingTable.Invariant.{IsValid, purge-IsValid}

abbrev pub is_listed : ℕ → AddressMap ℕ → Bool
is_listed dst = any (λ u. dst == u.0)

-- The inner loop changes a route at most once: it is not valid any more.
invalidate_if_listed_lem :
    (now bad : Time) (us : AddressMap ℕ) (dst : ℕ) (e : RoutingTableEntry)
    → invalidate_if_listed now bad us dst e
      ≡ (if is_listed dst us && is_valid e.flag then invalidate now bad e else e)
unfolding invalidate_if_listed invalidate is_valid is_invalid
invalidate_if_listed_lem now bad [] dst e = refl
invalidate_if_listed_lem now bad ((k, s) ∷ us) dst e = ground (
  arith,
  invalidate_if_listed_lem now bad us dst e,
  invalidate_if_listed_lem now bad us dst (invalidate now bad e),
)

module _ {D : Type 0} ⦃o : Platform D⦄ where
  -- `InvalidateRoutesWithDst` marks as invalid exactly the valid routes to the listed
  -- destinations, for the bad link lifetime, and leaves all others as the purge does.
  pub find-invalidate_routes_with_dst :
      (now : Time) (us : AddressMap ℕ) (dst : ℕ) (t : RoutingTable D)
      → IsValid t
      → find dst (invalidate_routes_with_dst now us t).routes
        ≡ Opt.map
            (λ e.
              if is_listed dst us && is_valid e.flag
              then invalidate now (purge now t).bad_link_lifetime e
              else e)
            (find dst (purge now t).routes)
  unfolding invalidate_routes_with_dst Opt.bind
  find-invalidate_routes_with_dst now us dst t v =
      find-update_all
        (λ k e. some (invalidate_if_listed now (purge now t).bad_link_lifetime us k e)) dst
        (purge now t).routes (purge-IsValid now t v).sorted
      ∙ pointwise (find dst (purge now t).routes)
    where
      pointwise :
          (found : Option RoutingTableEntry)
          → Opt.bind found
              (λ e. some (invalidate_if_listed now (purge now t).bad_link_lifetime us dst e))
            ≡ Opt.map
                (λ e.
                  if is_listed dst us && is_valid e.flag
                  then invalidate now (purge now t).bad_link_lifetime e
                  else e)
                found
      pointwise none = refl
      pointwise (some e) =
          ap some (invalidate_if_listed_lem now (purge now t).bad_link_lifetime us dst e)

-- The walk over the routes finds for each destination its sequence number if its route goes
-- through the next hop.
abbrev through : ℕ → RoutingTableEntry → Option ℕ
through next_hop e = if e.route.gateway == next_hop then some e.seq_no else none

-- Where the map has no entry for the keys that are still to come, nor will it after this one.
fresh-next :
    (next_hop i k : ℕ) (w e : RoutingTableEntry) (m : AddressMap RoutingTableEntry)
    (us : AddressMap ℕ)
    → Above i m
    → find i us ≡ none
    → find k us ≡ none
    → find k m ≡ some e
    → find k (if w.route.gateway == next_hop then insert i w.seq_no us else us) ≡ none
fresh-next next_hop i k w e m us s here later there =
    ground (arith, find-insert i k w.seq_no us here, find-Above i k m s)

find_head :
    (i : ℕ) (w : RoutingTableEntry) (m : AddressMap RoutingTableEntry)
    → find i ((i, w) ∷ m) ≡ some w
unfolding find
find_head i w m = rw (==_refl i)

find_later :
    (i k : ℕ) (w e : RoutingTableEntry) (m : AddressMap RoutingTableEntry)
    → Above i m
    → find k m ≡ some e
    → find k ((i, w) ∷ m) ≡ some e
unfolding find
find_later i k w e m s there = ground (arith, find-Above i k m s)

find-via :
    (next_hop j : ℕ) (m : AddressMap RoutingTableEntry) (us : AddressMap ℕ)
    → IsSorted m
    → ((k : ℕ) (e : RoutingTableEntry) → find k m ≡ some e → find k us ≡ none)
    → find j (via next_hop m us) ≡ Opt.or_else (find j us) (Opt.bind (find j m) (through next_hop))
unfolding via Opt.or_else Opt.bind find
find-via next_hop j [] us s fresh = ground arith
find-via next_hop j ((i, w) ∷ m) us s fresh =
    let here = fresh i w (find_head i w m) in
    ground (
      arith,
      find-via next_hop j m (if w.route.gateway == next_hop then insert i w.seq_no us else us)
          (Above-IsSorted i m s)
          (λ k e there.
            fresh-next next_hop i k w e m us s here (fresh k e (find_later i k w e m s there))
              there),
      find-insert i j w.seq_no us here,
      find-Above i j m s,
    )

module _ {D : Type 0} ⦃o : Platform D⦄ where
  -- What `GetListOfDestinationWithNextHop` lists is exactly the destinations whose routes, after the
  -- purge, go through the next hop, each with the sequence number of its route.
  pub find-get_list_of_destination_with_next_hop :
      (now : Time) (next_hop dst : ℕ) (t : RoutingTable D)
      → IsValid t
      → find dst (get_list_of_destination_with_next_hop now next_hop t).1
        ≡ Opt.bind
            (find dst (purge now t).routes)
            (λ e. if e.route.gateway == next_hop then some e.seq_no else none)
  unfolding get_list_of_destination_with_next_hop Opt.or_else find
  find-get_list_of_destination_with_next_hop now next_hop dst t v =
      find-via next_hop dst (purge now t).routes [] (purge-IsValid now t v).sorted (λ k e h. refl)
