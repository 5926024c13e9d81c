-- ===== src/Errors/Returns.antt =====
-- The message that `RecvError` fills.
use fp_jaringan_nirkabel.Base.{
  ℕ, ◌+◌, ◌<◌, ◌≤◌, ◌≡◌, refl, true, none, some, List, [], ◌∷◌, ◌++◌, arith, if◌then◌else◌, length,
  length-append, All, Bool-cases, inl, inr, ◌∙◌, ap, sym,
}
use mathlib.Core.List.{append-nil, append_assoc}
use fp_jaringan_nirkabel.AddressMap.{AddressMap, find, insert, Above, IsSorted}
use fp_jaringan_nirkabel.AddressMap.Laws.{
  find-insert, find-below, Above-IsSorted, Above-mono, Above-step, insert-append,
}
use fp_jaringan_nirkabel.Net.{Time}
use fp_jaringan_nirkabel.Platform.{Platform}
use fp_jaringan_nirkabel.RoutingTable.{RoutingTable, lookup_route}
use fp_jaringan_nirkabel.Packet.Rerr.{RerrHeader, add_un_destination, get_dest_count}
use fp_jaringan_nirkabel.Errors.{insert_if_via, concerned, fill, precursors_of}
use fp_jaringan_nirkabel.Errors.Reported.{is_via}

-- `insert` keeps the number that is there, so that one address is put in once.
insert_if_via-there :
    (via : AddressMap ℕ) (dst s x : ℕ) (us : AddressMap ℕ)
    → find dst us ≡ some x
    → insert_if_via via dst s us ≡ us
unfolding insert_if_via insert
insert_if_via-there [] dst s x us h = refl
insert_if_via-there ((i, _) ∷ via) dst s x us h =
    ground (arith, insert_if_via-there via dst s x us h)

insert_if_via-append :
    (via : AddressMap ℕ) (dst s : ℕ) (us : AddressMap ℕ)
    → All (λ e. e.0 < dst) us
    → find dst us ≡ none
    → insert_if_via via dst s us ≡ (if is_via dst via then us ++ (dst, s) ∷ [] else us)
unfolding insert_if_via
insert_if_via-append [] dst s us a new = refl
insert_if_via-append ((i, _) ∷ via) dst s us a new = ground (
  arith,
  insert_if_via-append via dst s us a new,
  insert_if_via-there via dst s s (insert dst s us),
  find-insert dst dst s us new,
  insert-append dst s us a,
)

-- The destinations that are kept, in their order.
abbrev pub kept : AddressMap ℕ → AddressMap ℕ → AddressMap ℕ
kept via [] = []
kept via ((dst, s) ∷ uns) =
    let rest = kept via uns in if is_via dst via then (dst, s) ∷ rest else rest

length-kept-le : (via uns : AddressMap ℕ) → length (kept via uns) ≤ length uns
length-kept-le via [] = omega arith
length-kept-le via ((dst, s) ∷ uns) = ground (arith, length-kept-le via uns)

-- `AddUnDestination` of addresses above all that the message has.
add_un_destination-append :
    (dst s : ℕ) (h : RerrHeader)
    → All (λ e. e.0 < dst) h.unreachable
    → find dst h.unreachable ≡ none
    → length h.unreachable < 255
    → add_un_destination dst s h
      ≡ some (record h { unreachable = h.unreachable ++ (dst, s) ∷ [] }, true)
unfolding add_un_destination get_dest_count
add_un_destination-append dst s h a new few = ground (arith, insert-append dst s h.unreachable a)

concerned-kept :
    (via uns us : AddressMap ℕ)
    → IsSorted uns
    → All (λ e. Above e.0 uns) us
    → concerned via uns us ≡ us ++ kept via uns
unfolding concerned
concerned-kept via [] us sorted a = sym (append-nil us)
concerned-kept via ((dst, s) ∷ uns) us sorted a =
    let (below, behind, all) = Above-step dst s us uns sorted a in
    let next = insert_if_via-append via dst s us below (find-below dst us below) in
    elim (Bool-cases (is_via dst via)) [
      | inl yes_via ↦
          rw (next, yes_via)
            (concerned-kept via uns (us ++ (dst, s) ∷ []) (Above-IsSorted dst uns sorted) all
              ∙ append_assoc us ((dst, s) ∷ []) (kept via uns))
      | inr no_via ↦
          rw (next, no_via) (concerned-kept via uns us (Above-IsSorted dst uns sorted) behind)
    ]

kept-Above : (via uns : AddressMap ℕ) (k : ℕ) → Above k uns → Above k (kept via uns)
kept-Above via [] k a = tt
kept-Above via ((dst, s) ∷ uns) k a =
    ground (arith, kept-Above via uns dst a.1, Above-mono dst k (kept via uns))

kept-IsSorted : (via uns : AddressMap ℕ) → IsSorted uns → IsSorted (kept via uns)
kept-IsSorted via [] a = tt
kept-IsSorted via ((dst, s) ∷ uns) a =
    ground (arith, kept-Above via uns dst a, kept-IsSorted via uns (Above-IsSorted dst uns a))

module _ {D : Type 0} ⦃o : Platform D⦄ where
  fill-Returns :
      (now : Time) (us : AddressMap ℕ) (h : RerrHeader) (t : RoutingTable D) (precursors : List ℕ)
      → IsSorted us
      → All (λ e. Above e.0 us) h.unreachable
      → length h.unreachable + length us ≤ 255
      → (t' : RoutingTable D) × (precursors' : List ℕ) × (fill now us h t precursors
          ≡ some (record h { unreachable = h.unreachable ++ us }, t', precursors'))
  unfolding fill
  fill-Returns now [] h t precursors sorted a few = (
    t,
    precursors,
    ap (λ us. some (record h { unreachable = us }, t, precursors)) (sym (append-nil h.unreachable)),
  )
  fill-Returns now ((dst, s) ∷ us) h t precursors sorted a few =
      let (below, _, all) = Above-step dst s h.unreachable us sorted a in
      let added =
        add_un_destination-append dst s h below (find-below dst h.unreachable below)
          (omega arith) in
      let (t1, to) = lookup_route now dst t in
      let (t', precursors', filled) =
        fill-Returns now us (record h { unreachable = h.unreachable ++ (dst, s) ∷ [] }) t1
          (precursors_of to precursors) (Above-IsSorted dst us sorted) all
          (omega (arith, length-append h.unreachable ((dst, s) ∷ []))) in
      (
        t',
        precursors',
        rw added filled
            ∙ ap (λ us. some (record h { unreachable = us }, t', precursors'))
                (append_assoc h.unreachable ((dst, s) ∷ []) us),
      )

  -- The message that `RecvError` fills names what it is concerned with.
  pub fill-concerned :
      (now : Time) (via : AddressMap ℕ) (h : RerrHeader) (t : RoutingTable D)
      → IsSorted h.unreachable
      → length h.unreachable ≤ 255
      → let us = concerned via h.unreachable [] in
        (t' : RoutingTable D) × (precursors : List ℕ) × (fill now us
            (record h { unreachable = [] })
            t
            []
          ≡ some (record h { unreachable = us }, t', precursors))
  fill-concerned now via h t sorted few = rw (concerned-kept via h.unreachable [] sorted tt) (
      fill-Returns now (kept via h.unreachable) (record h { unreachable = [] }) t []
        (kept-IsSorted via h.unreachable sorted) tt
        (omega (arith, length-kept-le via h.unreachable)))
