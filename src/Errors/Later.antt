-- ===== src/Errors/Later.antt =====
-- The tables that the error handlers see: each is an earlier one after some purges, so that a valid
-- route was there before, and its interface has a socket if the earlier routes' interfaces do.
use fp_jaringan_nirkabel.Base.{
  ℕ, ◌≡◌, ◌==◌, refl, sym, subst, true, Option, none, some, List, [], ◌∷◌, ◌++◌, Option-cases,
  Bool-cases, inl, inr, OnSome, Returns, Returns-bind, arith, All, All-append, any, either_branch,
}
use mathlib.Core.Option as Opt
use fp_jaringan_nirkabel.AddressMap.{AddressMap, find}
use fp_jaringan_nirkabel.Net.{Time}
use fp_jaringan_nirkabel.Platform.{Platform}
use fp_jaringan_nirkabel.RouteEntry.{
  RoutingTableEntry, InterfaceAddress, is_valid, is_interface, get_precursors, collect, invalidate,
  is_precursor_list_empty,
}
use fp_jaringan_nirkabel.RoutingTable.{
  RoutingTable, purge, purge_entry, purge_expired, lookup_valid_route, lookup_route, if_valid,
}
use fp_jaringan_nirkabel.RoutingTable.Invariant.{IsValid, purge-IsValid}
use fp_jaringan_nirkabel.RoutingTable.Lookup.{lookup_valid_route_iff, find-purge}
use fp_jaringan_nirkabel.Packet.Rerr.{RerrHeader, add_un_destination, get_dest_count}
use fp_jaringan_nirkabel.Errors.{
  Reporter, find_socket, broadcast_from, add_interface, interfaces, send_to_one, send_to_precursors,
  send_rerr_message, send_if_named, fill, precursors_of,
}

-- A socket has the interface's address.
abbrev pub IsOpen : List (ℕ × InterfaceAddress) → InterfaceAddress → Type 0
IsOpen ss iface = (socket : ℕ) × (find_socket iface ss ≡ some socket)

broadcast_from-Returns :
    (h : RerrHeader) (ifaces : List InterfaceAddress) (ss : List (ℕ × InterfaceAddress))
    → All (IsOpen ss) ifaces
    → Returns (broadcast_from h ifaces ss) (λ sent. All (λ m. m.header ≡ h) sent)
unfolding broadcast_from
broadcast_from-Returns h [] ss a = tt
broadcast_from-Returns h (i ∷ ifaces) ss ((socket, there), a) = rw there (
    Returns-bind (λ sent. All (λ m. m.header ≡ h) sent) (λ sent. All (λ m. m.header ≡ h) sent)
      (broadcast_from h ifaces ss) _ (broadcast_from-Returns h ifaces ss a) (λ sent b. (refl, b)))

add_interface-All :
    (P : InterfaceAddress → Type 0) (found : Option RoutingTableEntry)
    (ifaces : List InterfaceAddress)
    → OnSome found (λ e. P e.interface)
    → All P ifaces
    → All P (add_interface found ifaces)
unfolding add_interface
add_interface-All P none ifaces p a = a
add_interface-All P (some to) ifaces p a =
    either_branch (All P) (any (is_interface to.interface) ifaces) ifaces _ a
      (All-append P ifaces (to.interface ∷ []) a (p, tt))

collect-All : (P : ℕ → Type 0) (xs ps : List ℕ) → All P xs → All P ps → All P (collect xs ps)
unfolding collect
collect-All P [] ps a b = b
collect-All P (x ∷ xs) ps a b = collect-All P xs _ a.1 (
    either_branch (All P) (any (λ j. j == x) ps) ps (ps ++ x ∷ []) b
      (All-append P ps (x ∷ []) b (a.0, tt)))

pub precursors-All :
    (P : ℕ → Type 0) (found : Option RoutingTableEntry) (ps : List ℕ)
    → OnSome found (λ e. All P e.precursor_list)
    → All P ps
    → All P (precursors_of found ps)
unfolding precursors_of get_precursors
precursors-All P none ps a b = b
precursors-All P (some e) ps a b =
    either_branch (All P) (is_precursor_list_empty e.precursor_list) ps _ b
      (collect-All P e.precursor_list ps a b)

purge_entry-precursors :
    (now bad : Time) (dst : ℕ) (e : RoutingTableEntry)
    → OnSome (purge_entry now bad dst e) (λ e'. e'.precursor_list ≡ e.precursor_list)
unfolding purge_entry purge_expired invalidate
purge_entry-precursors now bad dst e = ground arith

pub found_all :
    (P : RoutingTableEntry → Type 0) (k : ℕ) (m : AddressMap RoutingTableEntry)
    → All (λ r. P r.1) m
    → OnSome (find k m) P
unfolding find
found_all P k [] a = tt
found_all P k ((j, w) ∷ m) a = elim (Bool-cases (j == k)) [
  | inl here ↦ rw here a.0
  | inr later ↦ rw later (found_all P k m a.1)
]

purged_entry :
    (now : Time) (Q : ℕ → Type 0) (bad : Time) (j : ℕ) (found : Option RoutingTableEntry)
    → OnSome found (λ e. All Q e.precursor_list)
    → OnSome (Opt.bind found (purge_entry now bad j)) (λ e. All Q e.precursor_list)
unfolding Opt.bind
purged_entry now Q bad j none a = tt
purged_entry now Q bad j (some e) a = elim (Option-cases (purge_entry now bad j e)) [
  | inl gone ↦ rw gone tt
  | inr (e', there) ↦ rw there (
      subst (All Q)
        (sym (
          subst (λ o. OnSome o (λ e'. e'.precursor_list ≡ e.precursor_list)) there
            (purge_entry-precursors now bad j e)))
        a)
]

module _ {D : Type 0} where
  -- The valid route to an address, if there is one, goes over an interface with a socket.
  abbrev pub HasSocket : List (ℕ × InterfaceAddress) → RoutingTable D → ℕ → Type 0
  HasSocket ss t i = OnSome (find i t.routes) (λ e. is_valid e.flag ≡ true → IsOpen ss e.interface)

module _ {D : Type 0} ⦃o : Platform D⦄ where
  -- The table is valid, and its valid routes are those of an earlier one.
  abbrev pub Later : RoutingTable D → RoutingTable D → Type 0
  Later t t' =
      IsValid t'
      × ((dst : ℕ) (e : RoutingTableEntry)
          → find dst t'.routes ≡ some e
          → is_valid e.flag ≡ true
          → find dst t.routes ≡ some e)

  pub purge-Later : (now : Time) (t t' : RoutingTable D) → Later t t' → Later t (purge now t')
  unfolding lookup_valid_route lookup_route if_valid
  purge-Later now t t' (v, same) = (
    purge-IsValid now t' v,
    λ dst e there usable.
        same dst e ((lookup_valid_route_iff now dst t' e v).0 (rw (there, if_valid, usable) refl)).0
          usable,
  )

  found-IsOpen :
      (now : Time) (ss : List (ℕ × InterfaceAddress)) (t t' : RoutingTable D) (i : ℕ)
      → Later t t'
      → HasSocket ss t i
      → OnSome (lookup_valid_route now i t').1 (λ e. IsOpen ss e.interface)
  unfolding is_valid
  found-IsOpen now ss t t' i (v, same) h = elim (Option-cases (lookup_valid_route now i t').1) [
    | inl gone ↦ rw gone tt
    | inr (e, found) ↦
        let (there, usable, live) = (lookup_valid_route_iff now i t' e v).0 found in
        let ok : is_valid e.flag ≡ true = rw usable refl in
        rw found (
          subst (λ o. OnSome o (λ e. is_valid e.flag ≡ true → IsOpen ss e.interface))
            (same i e there ok) h ok)
  ]

  interfaces-IsOpen :
      (now : Time) (ss : List (ℕ × InterfaceAddress)) (t t' : RoutingTable D) (ps : List ℕ)
      (ifaces : List InterfaceAddress)
      → Later t t'
      → All (HasSocket ss t) ps
      → All (IsOpen ss) ifaces
      → All (IsOpen ss) (interfaces now ps t' ifaces).1
  unfolding interfaces lookup_valid_route lookup_route
  interfaces-IsOpen now ss t t' [] ifaces v h a = a
  interfaces-IsOpen now ss t t' (i ∷ ps) ifaces v h a =
      interfaces-IsOpen now ss t (purge now t') ps _ (purge-Later now t t' v) h.1
        (add_interface-All (IsOpen ss) _ ifaces (found-IsOpen now ss t t' i v h.0) a)

  -- With a socket for each precursor's route and the timer running, no assertion fails, and each
  -- message is the given one.
  pub send_rerr_message-Returns :
      (now : Time) (h : RerrHeader) (ps : List ℕ) (t : RoutingTable D) (s : Reporter D)
      → s.is_limit_timer_running ≡ true
      → Later t s.table
      → All (HasSocket s.sockets t) ps
      → Returns (send_rerr_message now h ps s) (λ r. All (λ m. m.header ≡ h) r.1)
  unfolding send_rerr_message send_to_precursors send_to_one
  send_rerr_message-Returns now h [] t s running v a = tt
  send_rerr_message-Returns now h (i ∷ j ∷ ps) t s running v a =
      elim (Bool-cases (s.rerr_count == s.rerr_rate_limit)) [
        | inl limited ↦ rw (limited, running) tt
        | inr below ↦ rw below (
            Returns-bind (λ sent. All (λ m. m.header ≡ h) sent) (λ r. All (λ m. m.header ≡ h) r.1)
              (broadcast_from h (interfaces now (i ∷ j ∷ ps) s.table []).1 s.sockets) _
              (broadcast_from-Returns h _ s.sockets
                (interfaces-IsOpen now s.sockets t s.table (i ∷ j ∷ ps) [] v a tt))
              (λ sent b. b))
      ]
  send_rerr_message-Returns now h (i ∷ []) t s running v a =
      elim (Bool-cases (s.rerr_count == s.rerr_rate_limit)) [
        | inl limited ↦ rw (limited, running) tt
        | inr below ↦
            let has = found-IsOpen now s.sockets t s.table i v a.0 in
            elim (Option-cases (lookup_valid_route now i s.table).1) [
              | inl none_valid ↦ rw (below, none_valid, send_to_one) tt
              | inr (to, there) ↦
                  let (socket, found) =
                    subst (λ o. OnSome o (λ e. IsOpen s.sockets e.interface)) there has in
                  rw (below, there, send_to_one, found) (refl, tt)
            ]
      ]

  pub send_if_named-Returns :
      (now : Time) (h : RerrHeader) (ps : List ℕ) (t : RoutingTable D) (s : Reporter D)
      → s.is_limit_timer_running ≡ true
      → Later t s.table
      → All (HasSocket s.sockets t) ps
      → Returns (send_if_named now h ps s) (λ r. All (λ m. m.header ≡ h) r.1)
  unfolding send_if_named
  send_if_named-Returns now h ps t s running v a = elim (Bool-cases (get_dest_count h == 0)) [
    | inl no_destination ↦ rw no_destination tt
    | inr some_destination ↦
        rw some_destination (send_rerr_message-Returns now h ps t s running v a)
  ]

  -- Each precursor of a route is among given addresses.
  abbrev pub Precursed : (ℕ → Type 0) → RoutingTable D → Type 0
  Precursed Q t = (j : ℕ) → OnSome (find j t.routes) (λ e. All Q e.precursor_list)

  pub purge-Precursed :
      (now : Time) (Q : ℕ → Type 0) (t : RoutingTable D)
      → IsValid t
      → Precursed Q t
      → Precursed Q (purge now t)
  unfolding Opt.bind
  purge-Precursed now Q t v a j =
      subst (λ o. OnSome o (λ e. All Q e.precursor_list)) (sym (find-purge now j t v))
        (purged_entry now Q t.bad_link_lifetime j (find j t.routes) (a j))

  pub fill-Precursors :
      (now : Time) (Q : ℕ → Type 0) (us : AddressMap ℕ) (h : RerrHeader) (t : RoutingTable D)
      (ps : List ℕ)
      → IsValid t
      → Precursed Q t
      → All Q ps
      → OnSome (fill now us h t ps) (λ r. All Q r.2)
  unfolding fill lookup_route
  fill-Precursors now Q [] h t ps v p a = a
  fill-Precursors now Q ((dst, s) ∷ us) h t ps v p a =
      elim (Option-cases (add_un_destination dst s h)) [
        | inl fails ↦ rw fails tt
        | inr ((h', added), there) ↦
            let p' = purge-Precursed now Q t v p in
            rw there (
              fill-Precursors now Q us h' (purge now t) _ (purge-IsValid now t v) p'
                (precursors-All Q (find dst (purge now t).routes) ps (p' dst) a))
      ]

-- The timer of the rate limit runs, and the valid route to each precursor goes over an interface
-- with a socket.
pub record IsAttached {D : Type 0} (s : Reporter D) : Type 0 where
  pub running : s.is_limit_timer_running ≡ true
  pub reachable : All (λ r. All (HasSocket s.sockets s.table) r.1.precursor_list) s.table.routes
