-- ===== src/Errors/Validity.antt =====
-- The error messages keep the table valid and the count within its limit.
use fp_jaringan_nirkabel.Base.{
  ℕ, ◌≡◌, ◌≤◌, ◌<◌, ◌^◌, ◌==◌, refl, ◌∙◌, List, [], ◌∷◌, Option-cases, OnSome, Option, none, some,
  OnSome-if, OnSome-bind, chained, combined, inl, inr, arith, subst,
}
use fp_jaringan_nirkabel.AddressMap.{AddressMap, find, insert, add}
use fp_jaringan_nirkabel.Net.{Time}
use fp_jaringan_nirkabel.Platform.{Platform}
use fp_jaringan_nirkabel.RouteEntry.{RoutingTableEntry, InterfaceAddress, get_precursors}
use fp_jaringan_nirkabel.RoutingTable.{
  RoutingTable, purge, lookup_route, lookup_valid_route, get_list_of_destination_with_next_hop,
  invalidate_routes_with_dst,
}
use fp_jaringan_nirkabel.RoutingTable.Invariant.{
  IsValid, invalidates, perform, purge-IsValid, perform-IsValid,
}
use fp_jaringan_nirkabel.Packet.Rerr.{RerrHeader, new_header, add_un_destination, get_dest_count}
use fp_jaringan_nirkabel.Errors.{
  Reporter, fill, precursors_of, interfaces, send_to_one, send_to_precursors, send_rerr_message,
  send_if_named, broadcast_from, find_socket, ErrorMessage, recv_error, concerned,
}
use fp_jaringan_nirkabel.Errors.Broken.{
  no_route_messages, report_broken_link, send_rerr_when_breaks_link_to_next_hop,
  send_rerr_when_no_route_to_forward,
}
use fp_jaringan_nirkabel.Errors.Reported.{Counted, send_rerr_message-Counted}

pub record IsSound {D : Type 0} (limit : ℕ) (s : Reporter D) : Type 0 where
  pub table : IsValid s.table
  pub within : s.rerr_count ≤ limit
  pub limited : s.rerr_rate_limit ≡ limit
  pub small : limit < 2 ^ 16

module _ {D : Type 0} ⦃o : Platform D⦄ where
  abbrev pub with : RoutingTable D → Reporter D → Reporter D
  with t s = record s { table = t }

  invalidated-IsValid :
      (now : Time) (us : AddressMap ℕ) (t : RoutingTable D)
      → IsValid t
      → IsValid (invalidate_routes_with_dst now us t)
  unfolding perform
  invalidated-IsValid now us t v = perform-IsValid now (invalidates us) t v

-- What a purge keeps of the table, the messages keep of it.
module _ {D : Type 0} ⦃o : Platform D⦄ (now : Time) (P : RoutingTable D → Type 0)
    (purged : (t : RoutingTable D) → P t → P (purge now t)) where
  pub fill-keeps :
      (us : AddressMap ℕ) (h : RerrHeader) (t : RoutingTable D) (ps : List ℕ)
      → P t
      → OnSome (fill now us h t ps) (λ r. P r.1)
  unfolding fill lookup_route
  fill-keeps [] h t ps v = v
  fill-keeps ((dst, s) ∷ us) h t ps v = elim (Option-cases (add_un_destination dst s h)) [
    | inl fails ↦ rw fails tt
    | inr ((h', added), there) ↦ rw there (
        fill-keeps us h' (purge now t) (precursors_of (find dst (purge now t).routes) ps)
          (purged t v))
  ]

  interfaces_keep :
      (ps : List ℕ) (t : RoutingTable D) (ifaces : List InterfaceAddress)
      → P t
      → P (interfaces now ps t ifaces).0
  unfolding interfaces lookup_valid_route lookup_route
  interfaces_keep [] t ifaces v = v
  interfaces_keep (i ∷ ps) t ifaces v = interfaces_keep ps (purge now t) _ (purged t v)

  -- What holds of a reporter with another table and the same limit.
  abbrev pub Keeps : Reporter D → Option (Reporter D × List ErrorMessage) → Type 0
  Keeps s r = OnSome r (λ r. P r.0.table × (r.0.rerr_rate_limit ≡ s.rerr_rate_limit))

  pub send_rerr_message-Keeps :
      (h : RerrHeader) (ps : List ℕ) (s : Reporter D)
      → P s.table
      → Keeps s (send_rerr_message now h ps s)
  unfolding send_rerr_message send_to_precursors send_to_one lookup_valid_route lookup_route
  send_rerr_message-Keeps h [] s v = (v, refl)
  send_rerr_message-Keeps h (i ∷ j ∷ ps) s v =
      OnSome-if (λ r. P r.0.table × (r.0.rerr_rate_limit ≡ s.rerr_rate_limit))
        (s.rerr_count == s.rerr_rate_limit) _ _
        (OnSome-if (λ r. P r.0.table × (r.0.rerr_rate_limit ≡ s.rerr_rate_limit))
          s.is_limit_timer_running _ none (v, refl) tt)
        (OnSome-bind (λ r. P r.0.table × (r.0.rerr_rate_limit ≡ s.rerr_rate_limit))
          (broadcast_from h (interfaces now (i ∷ j ∷ ps) s.table []).1 s.sockets) _
          (λ sent. (interfaces_keep (i ∷ j ∷ ps) s.table [] v, refl)))
  send_rerr_message-Keeps h (i ∷ []) s v =
      OnSome-if (λ r. P r.0.table × (r.0.rerr_rate_limit ≡ s.rerr_rate_limit))
        (s.rerr_count == s.rerr_rate_limit) _ _
        (OnSome-if (λ r. P r.0.table × (r.0.rerr_rate_limit ≡ s.rerr_rate_limit))
          s.is_limit_timer_running _ none (v, refl) tt)
        (elim (Option-cases (lookup_valid_route now i s.table).1) [
          | inl none_valid ↦ rw (none_valid, send_to_one) (purged s.table v, refl)
          | inr (to, there) ↦
              rw (there, send_to_one)
                (OnSome-bind (λ r. P r.0.table × (r.0.rerr_rate_limit ≡ s.rerr_rate_limit))
                  (find_socket to.interface s.sockets) _ (λ socket. (purged s.table v, refl)))
        ])

  pub send_if_named-Keeps :
      (h : RerrHeader) (ps : List ℕ) (s : Reporter D)
      → P s.table
      → Keeps s (send_if_named now h ps s)
  unfolding send_if_named
  send_if_named-Keeps h ps s v =
      OnSome-if (λ r. P r.0.table × (r.0.rerr_rate_limit ≡ s.rerr_rate_limit))
        (get_dest_count h == 0) _ _ (v, refl) (send_rerr_message-Keeps h ps s v)

module _ {D : Type 0} ⦃o : Platform D⦄ where
  fill-IsValid :
      (now : Time) (us : AddressMap ℕ) (h : RerrHeader) (t : RoutingTable D) (ps : List ℕ)
      → IsValid t
      → OnSome (fill now us h t ps) (λ r. IsValid r.1)
  fill-IsValid now us h t ps v = fill-keeps now IsValid (purge-IsValid now) us h t ps v

module _ {D : Type 0} ⦃o : Platform D⦄ (limit : ℕ) where
  with-IsSound :
      (t : RoutingTable D) (s : Reporter D) → IsValid t → IsSound limit s → IsSound limit (with t s)
  with-IsSound t s v h = record {
    table = v;
    within = h.within;
    limited = h.limited;
    small = h.small;
  }

  send_rerr_message-IsSound :
      (now : Time) (h : RerrHeader) (ps : List ℕ) (s : Reporter D)
      → IsSound limit s
      → OnSome (send_rerr_message now h ps s) (λ r. IsSound limit r.0)
  send_rerr_message-IsSound now h ps s v =
      combined (λ r. IsValid r.0.table × (r.0.rerr_rate_limit ≡ s.rerr_rate_limit)) (Counted s ps)
        (λ r. IsSound limit r.0) (send_rerr_message now h ps s)
        (send_rerr_message-Keeps now IsValid (purge-IsValid now) h ps s v.table)
        (send_rerr_message-Counted now h ps s (omega (arith, v.within, v.limited))
          (omega (arith, v.small, v.limited)))
        λ r kept counted. record {
          table = kept.0;
          within = omega (arith, counted.0, v.limited);
          limited = kept.1 ∙ v.limited;
          small = v.small;
        }

  -- Both handlers fill a message and send it if it names a destination.
  sent_if_named :
      (now : Time) (h : RerrHeader) (ps : List ℕ) (s : Reporter D)
      → IsSound limit s
      → OnSome (send_if_named now h ps s) (λ r. IsSound limit r.0)
  unfolding send_if_named
  sent_if_named now h ps s v =
      OnSome-if (λ r. IsSound limit r.0) (get_dest_count h == 0) _ _ v
        (send_rerr_message-IsSound now h ps s v)

  invalidated-IsSound :
      (now : Time) (us : AddressMap ℕ) (s : Reporter D)
      → IsSound limit s
      → IsSound limit (with (invalidate_routes_with_dst now us s.table) s)
  invalidated-IsSound now us s v = with-IsSound _ s (invalidated-IsValid now us s.table v.table) v

  pub recv_error-IsSound :
      (now : Time) (h : RerrHeader) (src : ℕ) (s : Reporter D)
      → IsSound limit s
      → OnSome (recv_error now h src s) (λ r. IsSound limit r.0)
  unfolding recv_error get_list_of_destination_with_next_hop
  recv_error-IsSound now h src s v =
      let (t, via) = get_list_of_destination_with_next_hop now src s.table in
      let us = concerned via h.unreachable [] in
      let filled =
        fill-IsValid now us (record h { unreachable = [] }) t []
          (purge-IsValid now s.table v.table) in
      elim (Option-cases (fill now us (record h { unreachable = [] }) t [])) [
        | inl fails ↦ rw fails tt
        | inr ((h', t', ps), there) ↦
            let v' = subst (λ o. OnSome o (λ r. IsValid r.1)) there filled in
            rw there (
              chained (λ r. IsSound limit r.0) (λ r. IsSound limit r.0)
                (send_if_named now h' ps (with t' s)) _
                (sent_if_named now h' ps (with t' s) (with-IsSound t' s v' v))
                (λ r w. invalidated-IsSound now us r.0 w))
      ]

  report_broken_link-IsSound :
      (now : Time) (next_hop : ℕ) (to : RoutingTableEntry) (s : Reporter D)
      → IsSound limit s
      → OnSome (report_broken_link now next_hop to s) (λ r. IsSound limit r.0)
  unfolding report_broken_link get_list_of_destination_with_next_hop add_un_destination new_header
      get_dest_count insert add
  report_broken_link-IsSound now next_hop to s v =
      let (t, us) = get_list_of_destination_with_next_hop now next_hop s.table in
      let h : RerrHeader = record new_header { unreachable = (next_hop, to.seq_no) ∷ [] } in
      let ps = get_precursors to [] in
      let filled = fill-IsValid now us h t ps (purge-IsValid now s.table v.table) in
      elim (Option-cases (fill now us h t ps)) [
        | inl fails ↦ rw fails tt
        | inr ((h', t', ps'), there) ↦
            let v' = subst (λ o. OnSome o (λ r. IsValid r.1)) there filled in
            rw there (
              chained (λ r. IsSound limit r.0) (λ r. IsSound limit r.0)
                (send_if_named now h' ps' (with t' s)) _
                (sent_if_named now h' ps' (with t' s) (with-IsSound t' s v' v))
                (λ r w. invalidated-IsSound now (insert next_hop to.seq_no us) r.0 w))
      ]

  pub send_rerr_when_breaks_link_to_next_hop-IsSound :
      (now : Time) (next_hop : ℕ) (s : Reporter D)
      → IsSound limit s
      → OnSome (send_rerr_when_breaks_link_to_next_hop now next_hop s) (λ r. IsSound limit r.0)
  unfolding send_rerr_when_breaks_link_to_next_hop lookup_route
  send_rerr_when_breaks_link_to_next_hop-IsSound now next_hop s v =
      let purged = with-IsSound (purge now s.table) s (purge-IsValid now s.table v.table) v in
      elim (Option-cases (find next_hop (purge now s.table).routes)) [
        | inl unknown ↦ rw (unknown, send_rerr_when_breaks_link_to_next_hop) purged
        | inr (to, there) ↦
            rw (there, send_rerr_when_breaks_link_to_next_hop)
              (report_broken_link-IsSound now next_hop to (with (purge now s.table) s) purged)
      ]

  pub send_rerr_when_no_route_to_forward-IsSound :
      (now : Time) (dst seq_no origin : ℕ) (s : Reporter D)
      → IsSound limit s
      → OnSome (send_rerr_when_no_route_to_forward now dst seq_no origin s) (λ r. IsSound limit r.0)
  unfolding send_rerr_when_no_route_to_forward lookup_valid_route lookup_route
  send_rerr_when_no_route_to_forward-IsSound now dst seq_no origin s v =
      let P : Reporter D × List ErrorMessage → Type 0 = λ r. IsSound limit r.0 in
      OnSome-if P (s.rerr_count == s.rerr_rate_limit) _ _
        (OnSome-if P s.is_limit_timer_running (some (s, [])) none v tt)
        (OnSome-bind P (add_un_destination dst seq_no new_header) _ λ added.
          OnSome-bind P
            (no_route_messages added.0 s.sockets (lookup_valid_route now origin s.table).1)
            (λ sent. some (with (purge now s.table) s, sent))
            λ sent. with-IsSound (purge now s.table) s (purge-IsValid now s.table v.table) v)
