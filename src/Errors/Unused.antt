-- ===== src/Errors/Unused.antt =====
-- No route of the kind that `RecvError` was told of stays in use.
use fp_jaringan_nirkabel.Base.{
  ℕ, ◌≡◌, ◌≤◌, ◌==◌, ◌&&◌, refl, subst, ◌∙◌, Bool, true, false, some, [], ◌∷◌, Option-cases, inl,
  inr, List, Option, OnSome, Returns, Returns-bind, returns_with, ◌>>=◌, All, arith, length,
  if◌then◌else◌,
}
use mathlib.Core.Option as Opt
use fp_jaringan_nirkabel.AddressMap.{AddressMap, find, IsSorted}
use fp_jaringan_nirkabel.Net.{Time}
use fp_jaringan_nirkabel.Platform.{Platform}
use fp_jaringan_nirkabel.RouteEntry.{RoutingTableEntry, is_valid, invalidate}
use fp_jaringan_nirkabel.RoutingTable.{
  RoutingTable, purge, get_list_of_destination_with_next_hop, invalidate_routes_with_dst,
}
use fp_jaringan_nirkabel.RoutingTable.Invariant.{IsValid, purge-IsValid}
use fp_jaringan_nirkabel.RoutingTable.Links.{
  is_listed, find-invalidate_routes_with_dst, find-get_list_of_destination_with_next_hop,
}
use fp_jaringan_nirkabel.Packet.Rerr.{RerrHeader}
use fp_jaringan_nirkabel.Errors.{send_if_named, ErrorMessage, Reporter, concerned, recv_error}
use fp_jaringan_nirkabel.Errors.Later.{
  Later, purge-Later, HasSocket, send_if_named-Returns, IsAttached, Precursed, purge-Precursed,
  fill-Precursors, found_all,
}
use fp_jaringan_nirkabel.Errors.Reported.{is_via, find-concerned}
use fp_jaringan_nirkabel.Errors.Validity.{fill-keeps, send_if_named-Keeps}
use fp_jaringan_nirkabel.Errors.Returns.{fill-concerned}

pub listed_if_found : (j x : ℕ) (us : AddressMap ℕ) → find j us ≡ some x → is_listed j us ≡ true
unfolding find
listed_if_found j x [] h = ground arith
listed_if_found j x ((k, v) ∷ us) h = ground (arith, listed_if_found j x us)

via_if_found : (j x : ℕ) (us : AddressMap ℕ) → find j us ≡ some x → is_via j us ≡ true
unfolding find
via_if_found j x [] h = ground arith
via_if_found j x ((k, v) ∷ us) h = ground (arith, via_if_found j x us)

abbrev pub in_use : ℕ → RoutingTableEntry → Bool
in_use src e = is_valid e.flag && e.route.gateway == src

invalidated_unused :
    (now bad : Time) (src : ℕ) (e : RoutingTableEntry) (listed : Bool)
    → (in_use src e ≡ true → listed ≡ true)
    → in_use src (if listed && is_valid e.flag then invalidate now bad e else e) ≡ false
unfolding invalidate is_valid
invalidated_unused now bad src e listed h = ground (arith, h)

module _ {D : Type 0} ⦃o : Platform D⦄ where
  -- A valid route over the sender was there when the routes over the sender were listed.
  used-listed :
      (now : Time) (src dst seq_no : ℕ) (t t' : RoutingTable D) (us : AddressMap ℕ)
      (e : RoutingTableEntry)
      → IsValid t
      → IsSorted us
      → Later (purge now t) t'
      → find dst us ≡ some seq_no
      → find dst t'.routes ≡ some e
      → in_use src e ≡ true
      → is_listed dst (concerned (get_list_of_destination_with_next_hop now src t).1 us []) ≡ true
  unfolding Opt.bind
  used-listed now src dst seq_no t t' us e vt sorted v named there used =
      let via = (get_list_of_destination_with_next_hop now src t).1 in
      let before : find dst (purge now t).routes ≡ some e = v.1 dst e there (ground arith) in
      let over : e.route.gateway == src ≡ true = ground arith in
      let found_via : find dst via ≡ some e.seq_no =
        find-get_list_of_destination_with_next_hop now src dst t vt ∙ rw (before, over) refl in
      listed_if_found dst seq_no (concerned via us [])
        (find-concerned via us dst sorted ∙ rw (via_if_found dst e.seq_no via found_via) named)

  -- The handler's end: what was invalidated is not in use, for a table later than the one in which
  -- the routes over the sender were listed.
  found_unused :
      (now : Time) (src dst seq_no : ℕ) (t t' : RoutingTable D) (us : AddressMap ℕ)
      → IsValid t
      → IsSorted us
      → Later (purge now t) t'
      → find dst us ≡ some seq_no
      → OnSome
          (find dst
            (invalidate_routes_with_dst now
              (concerned (get_list_of_destination_with_next_hop now src t).1 us [])
              t').routes)
          (λ e. in_use src e ≡ false)
  unfolding Opt.bind
  found_unused now src dst seq_no t t' us vt sorted v named =
      let via = (get_list_of_destination_with_next_hop now src t).1 in
      elim (Option-cases (find dst (purge now t').routes)) [
        | inl gone ↦
            rw (find-invalidate_routes_with_dst now (concerned via us []) dst t' v.0, gone) tt
        | inr (e, there) ↦
            rw (find-invalidate_routes_with_dst now (concerned via us []) dst t' v.0, there)
              (invalidated_unused now (purge now t').bad_link_lifetime src e
                (is_listed dst (concerned via us []))
                (used-listed now src dst seq_no t (purge now t') us e vt sorted
                  (purge-Later now (purge now t) t' v) named there))
      ]

  abbrev invalidating :
      Time → AddressMap ℕ → Reporter D × List ErrorMessage → Option (Reporter D × List ErrorMessage)
  invalidating now us (s, sent) =
      some (record s { table = invalidate_routes_with_dst now us s.table }, sent)

  -- The end of both handlers: the message is sent, and the routes are invalidated.
  pub invalidated-Returns :
      (now : Time) (h : RerrHeader) (ps : List ℕ) (us : AddressMap ℕ) (dst : ℕ)
      (P : RoutingTableEntry → Type 0) (t t0 : RoutingTable D) (s : Reporter D)
      → s.is_limit_timer_running ≡ true
      → All (HasSocket s.sockets t0) ps
      → Later t0 s.table
      → Later t s.table
      → ((t' : RoutingTable D)
          → Later t t'
          → OnSome (find dst (invalidate_routes_with_dst now us t').routes) P)
      → Returns
          (send_if_named now h ps s >>= invalidating now us)
          (λ r. OnSome (find dst r.0.table.routes) P)
  invalidated-Returns now h ps us dst P t t0 s running has before later unused =
      Returns-bind (λ r. Later t r.0.table × (r.0.rerr_rate_limit ≡ s.rerr_rate_limit))
        (λ r. OnSome (find dst r.0.table.routes) P) (send_if_named now h ps s) (invalidating now us)
        (returns_with (λ r. All (λ m. m.header ≡ h) r.1)
          (λ r. Later t r.0.table × (r.0.rerr_rate_limit ≡ s.rerr_rate_limit))
          (send_if_named now h ps s) (send_if_named-Returns now h ps t0 s running before has)
          (send_if_named-Keeps now (Later t) (purge-Later now t) h ps s later))
        (λ r w. unused r.0.table w.0)

  pub attached-Precursed :
      (now : Time) (s : Reporter D)
      → IsValid s.table
      → IsAttached s
      → Precursed (HasSocket s.sockets s.table) (purge now s.table)
  attached-Precursed now s v a = purge-Precursed now (HasSocket s.sockets s.table) s.table v λ j.
      found_all (λ e. All (HasSocket s.sockets s.table) e.precursor_list) j s.table.routes
        a.reachable

  pub start-Later : (now : Time) (t : RoutingTable D) → IsValid t → Later t (purge now t)
  start-Later now t v = purge-Later now t t (v, λ dst e there usable. there)

  -- `RecvError` of a message of at most 255 destinations in order, for a valid table, with the timer
  -- of the rate limit running and a socket for the valid route to each precursor, returns, and no
  -- route to a destination that the message names is valid and goes over the message's sender.
  pub find-recv_error :
      (now : Time) (h : RerrHeader) (src dst seq_no : ℕ) (s : Reporter D)
      → IsValid s.table
      → IsAttached s
      → IsSorted h.unreachable
      → length h.unreachable ≤ 255
      → find dst h.unreachable ≡ some seq_no
      → Returns (recv_error now h src s) (λ r.
        OnSome (find dst r.0.table.routes) (λ e. is_valid e.flag && e.route.gateway == src ≡ false))
  unfolding recv_error get_list_of_destination_with_next_hop
  find-recv_error now h src dst seq_no s v attached sorted few named =
      let (t, via) = get_list_of_destination_with_next_hop now src s.table in
      let us = concerned via h.unreachable [] in
      let h0 : RerrHeader = record h { unreachable = [] } in
      let Q = HasSocket s.sockets s.table in
      let vt = purge-IsValid now s.table v in
      let (t', precursors, filled) = fill-concerned now via h t sorted few in
      let later : Later t t' =
        subst (λ o. OnSome o (λ r. Later t r.1)) filled
          (fill-keeps now (Later t) (purge-Later now t) us h0 t []
            (vt, λ dst e there usable. there)) in
      let before : Later s.table t' =
        subst (λ o. OnSome o (λ r. Later s.table r.1)) filled
          (fill-keeps now (Later s.table) (purge-Later now s.table) us h0 t []
            (start-Later now s.table v)) in
      let has : All Q precursors =
        subst (λ o. OnSome o (λ r. All Q r.2)) filled
          (fill-Precursors now Q us h0 t [] vt (attached-Precursed now s v attached) tt) in
      rw filled (
        invalidated-Returns now (record h { unreachable = us }) precursors us dst
          (λ e. in_use src e ≡ false) t s.table (record s { table = t' }) attached.running has
          before later
          (λ t1 w. found_unused now src dst seq_no s.table t1 h.unreachable v sorted w named))
