-- ===== src/Packet/Unreachable.antt =====
-- The destinations of an error message: what is added, taken out and compared.
use fp_jaringan_nirkabel.Base.{
  ℕ, ◌^◌, ◌<◌, ◌≤◌, ◌≡◌, ◌≢◌, ◌↔◌, refl, true, if◌then◌else◌, ◌==◌, Option, none, some, arith, [],
  ◌∷◌, length, OnSome, Returns, Option-cases, inl, inr,
}
use fp_jaringan_nirkabel.AddressMap.{AddressMap, find, insert, Above, IsSorted}
use fp_jaringan_nirkabel.AddressMap.Laws.{find-insert, insert-IsSorted, length-insert}
use fp_jaringan_nirkabel.Packet.Rerr.{
  RerrHeader, get_dest_count, add_un_destination, remove_un_destination, take_first,
  same_destinations, is_equal,
}

added_lem :
    (dst seq_no : ℕ) (us : AddressMap ℕ)
    → find dst us ≡ none
    → (j : ℕ) → find j (insert dst seq_no us) ≡ (if dst == j then some seq_no else find j us)
added_lem dst seq_no us h j = find-insert dst j seq_no us h

abbrev pub or_else : Option ℕ → Option ℕ → Option ℕ
or_else none y = y
or_else (some x) y = some x

added_all :
    (dst seq_no j : ℕ) (us : AddressMap ℕ)
    → find j (insert dst seq_no us) ≡ or_else (find j us) (if dst == j then some seq_no else none)
unfolding insert
added_all dst seq_no j us = elim (Option-cases (find dst us)) [
  | inl new ↦ ground (arith, added_lem dst seq_no us new j)
  | inr (s, there) ↦ ground arith
]

-- An address that the message has is left with its number. A new one gets its own, the other
-- destinations and their order are kept, and the 256th is refused by the assertion only: where the
-- function returns, it returns true.
pub add_un_destination_lem :
    (dst seq_no j : ℕ) (h : RerrHeader)
    → length h.unreachable < 2 ^ 8
    → IsSorted h.unreachable
    → ((add_un_destination dst seq_no h ≡ none)
        ↔ ((length h.unreachable ≡ 255) × (find dst h.unreachable ≡ none)))
      × OnSome (add_un_destination dst seq_no h) (λ r.
        (r.1 ≡ true)
        × IsSorted r.0.unreachable
        × (length r.0.unreachable ≤ 255)
        × (find j r.0.unreachable
            ≡ or_else (find j h.unreachable) (if dst == j then some seq_no else none)))
unfolding add_un_destination get_dest_count
add_un_destination_lem dst seq_no j h few sorted = ground (
  arith,
  added_all dst seq_no j h.unreachable,
  insert-IsSorted dst seq_no h.unreachable sorted,
  length-insert dst seq_no h.unreachable,
)

-- The message's first destination is taken out: it has the least address, and the other ones stay.
pub remove_un_destination_lem :
    (j : ℕ) (h : RerrHeader)
    → IsSorted h.unreachable
    → h.unreachable ≢ []
    → Returns (remove_un_destination h) (λ r.
      Above r.0.0 r.1.unreachable
      × (find j h.unreachable ≡ (if r.0.0 == j then some r.0.1 else find j r.1.unreachable)))
unfolding remove_un_destination take_first find
remove_un_destination_lem j h sorted some_left = ground arith

same_lem :
    (a b : AddressMap ℕ) → length a ≡ length b → (same_destinations (length a) a b ≡ true) ↔ (a ≡ b)
unfolding same_destinations
same_lem [] [] l = ((λ _. refl), (λ _. refl))
same_lem [] (y ∷ ys) l = absurd (omega arith)
same_lem (x ∷ xs) [] l = absurd (omega arith)
same_lem ((d, s) ∷ xs) ((e, t) ∷ ys) l = ground (arith, same_lem xs ys)

-- Two messages with fewer than 256 destinations each compare as equal exactly if they are.
pub is_equal_iff :
    (a b : RerrHeader)
    → length a.unreachable < 2 ^ 8
    → length b.unreachable < 2 ^ 8
    → (is_equal a b ≡ true) ↔ (a ≡ b)
unfolding is_equal get_dest_count
is_equal_iff a b fa fb = ground (arith, same_lem a.unreachable b.unreachable)
