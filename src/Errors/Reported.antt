-- ===== src/Errors/Reported.antt =====
-- Which destinations an error message concerns, and which messages are counted.
use fp_jaringan_nirkabel.Base.{
  ℕ, ◌+◌, ◌^◌, ◌<◌, ◌≤◌, ◌==◌, ◌≡◌, refl, ◌⊎◌, inl, inr, Bool, true, false, Option, none, some,
  List, [], ◌∷◌, arith, if◌then◌else◌, length, Option-cases, Bool-cases, OnSome, OnSome-if,
  OnSome-bind, Returns, returns_with, All,
}
use fp_jaringan_nirkabel.AddressMap.{AddressMap, find, insert, IsSorted}
use fp_jaringan_nirkabel.AddressMap.Laws.{find-insert, find-Above, Above-IsSorted}
use fp_jaringan_nirkabel.Net.{Time}
use fp_jaringan_nirkabel.Platform.{Platform}
use fp_jaringan_nirkabel.RoutingTable.{lookup_valid_route}
use fp_jaringan_nirkabel.Packet.Rerr.{RerrHeader}
use fp_jaringan_nirkabel.RoutingTable.Invariant.{IsValid}
use fp_jaringan_nirkabel.Errors.Later.{HasSocket, send_rerr_message-Returns}
use fp_jaringan_nirkabel.Errors.{
  ErrorMessage, find_socket, broadcast_from, interfaces, Reporter, insert_if_via, concerned,
  send_to_one, send_to_precursors, send_rerr_message,
}

abbrev pub or_found : Option ℕ → Option ℕ → Option ℕ
or_found none y = y
or_found (some x) y = some x

pub find-insert_any :
    (k j s : ℕ) (us : AddressMap ℕ)
    → find j (insert k s us) ≡ or_found (find j us) (if k == j then some s else none)
unfolding insert
find-insert_any k j s us = elim (Option-cases (find k us)) [
  | inl new ↦ ground (arith, find-insert k j s us new)
  | inr (x, there) ↦ ground arith
]

-- The presence of an address among those by a next hop.
abbrev pub is_via : ℕ → AddressMap ℕ → Bool
is_via dst [] = false
is_via dst ((i, _) ∷ via) = if i == dst then true else is_via dst via

find-insert_if_via :
    (via : AddressMap ℕ) (dst s j : ℕ) (us : AddressMap ℕ)
    → find j (insert_if_via via dst s us)
      ≡ or_found (find j us) (if dst == j then if is_via dst via then some s else none else none)
unfolding insert_if_via
find-insert_if_via [] dst s j us = ground arith
find-insert_if_via ((i, _) ∷ via) dst s j us = ground (
  arith,
  find-insert_if_via via dst s j (if i == dst then insert dst s us else us),
  find-insert_any dst j s us,
)

find-concerned_from :
    (via uns us : AddressMap ℕ) (j : ℕ)
    → IsSorted uns
    → find j (concerned via uns us)
      ≡ or_found (find j us) (if is_via j via then find j uns else none)
unfolding concerned find
find-concerned_from via [] us j sorted = ground arith
find-concerned_from via ((dst, s) ∷ uns) us j sorted = ground (
  arith,
  find-concerned_from via uns (insert_if_via via dst s us) j (Above-IsSorted dst uns sorted),
  find-insert_if_via via dst s j us,
  find-Above dst j uns sorted,
)

-- Of the destinations that an error message names, `RecvError` takes exactly those whose routes go
-- over its sender, each with the message's sequence number.
pub find-concerned :
    (via uns : AddressMap ℕ) (j : ℕ)
    → IsSorted uns
    → find j (concerned via uns []) ≡ (if is_via j via then find j uns else none)
unfolding find
find-concerned via uns j sorted = find-concerned_from via uns [] j sorted

module _ {D : Type 0} where
  -- The count after a message, and when it is raised.
  abbrev pub Counted : Reporter D → List ℕ → Reporter D × List ErrorMessage → Type 0
  Counted s ps (s', sent) =
      (s'.rerr_count ≤ s.rerr_rate_limit)
      × (((s'.rerr_count ≡ s.rerr_count) × ((sent ≡ []) ⊎ (1 < length ps)))
          ⊎ ((s'.rerr_count ≡ s.rerr_count + 1) × (length ps ≡ 1) × (length sent ≡ 1)))

module _ {D : Type 0} ⦃o : Platform D⦄ where
  pub send_rerr_message-Counted :
      (now : Time) (h : RerrHeader) (ps : List ℕ) (s : Reporter D)
      → s.rerr_count ≤ s.rerr_rate_limit
      → s.rerr_rate_limit < 2 ^ 16
      → OnSome (send_rerr_message now h ps s) (Counted s ps)
  unfolding send_rerr_message send_to_precursors send_to_one
  send_rerr_message-Counted now h [] s b small = (b, inl (refl, inl refl))
  send_rerr_message-Counted now h (i ∷ j ∷ ps) s b small =
      OnSome-if (Counted s (i ∷ j ∷ ps)) (s.rerr_count == s.rerr_rate_limit) _ _
        (OnSome-if (Counted s (i ∷ j ∷ ps)) s.is_limit_timer_running _ none
          (b, inl (refl, inl refl)) tt)
        (OnSome-bind (Counted s (i ∷ j ∷ ps))
          (broadcast_from h (interfaces now (i ∷ j ∷ ps) s.table []).1 s.sockets) _
          (λ sent. (b, inl (refl, inr (omega arith)))))
  send_rerr_message-Counted now h (i ∷ []) s b small =
      elim (Bool-cases (s.rerr_count == s.rerr_rate_limit)) [
        | inl limited ↦ rw limited (
            OnSome-if (Counted s (i ∷ [])) s.is_limit_timer_running (some (s, [])) none
              (b, inl (refl, inl refl)) tt)
        | inr below ↦ elim (Option-cases (lookup_valid_route now i s.table).1) [
          | inl none_valid ↦ rw (below, none_valid, send_to_one) (b, inl (refl, inl refl))
          | inr (to, there) ↦
              rw (below, there, send_to_one)
                (OnSome-bind (Counted s (i ∷ [])) (find_socket to.interface s.sockets) _
                  (λ socket. (ground arith, inr (ground arith, refl, refl))))
        ]
      ]

  -- For a valid table and a 16-bit rate limit, with the timer of the rate limit running and a socket
  -- for the valid route to each precursor, `SendRerrMessage` returns. Within the limit, it counts a message exactly where it sends one to a
  -- single precursor, and so keeps the count within the rate limit; a message to more precursors
  -- leaves the count alone.
  pub rerr_count-send_rerr_message :
      (now : Time) (h : RerrHeader) (precursors : List ℕ) (s : Reporter D)
      → IsValid s.table
      → s.is_limit_timer_running ≡ true
      → All (HasSocket s.sockets s.table) precursors
      → s.rerr_count ≤ s.rerr_rate_limit
      → s.rerr_rate_limit < 2 ^ 16
      → Returns (send_rerr_message now h precursors s) (λ r.
        (r.0.rerr_count ≤ s.rerr_rate_limit)
        × (((r.0.rerr_count ≡ s.rerr_count) × ((r.1 ≡ []) ⊎ (1 < length precursors)))
            ⊎ ((r.0.rerr_count ≡ s.rerr_count + 1) × (length precursors ≡ 1) × (length r.1 ≡ 1))))
  rerr_count-send_rerr_message now h ps s v running has b small =
      returns_with (λ r. All (λ m. m.header ≡ h) r.1) (Counted s ps) (send_rerr_message now h ps s)
        (send_rerr_message-Returns now h ps s.table s running (v, λ j e there usable. there) has)
        (send_rerr_message-Counted now h ps s b small)
