-- ===== src/AddressMap.antt =====
-- `std::map<Ipv4Address, V>`, as the routing table, the RERR header and the request timers use it:
-- an association list in ascending order of the addresses' 32-bit values.
pub mod Laws
use fp_jaringan_nirkabel.Base.{
  ℕ, ◌<◌, ◌≡◌, Bool, Option, none, some, List, [], ◌∷◌, if◌then◌else◌, ◌==◌, ltb, remove_if,
}

abbrev pub AddressMap {ℓ} : Type ℓ → Type ℓ
AddressMap V = List (ℕ × V)

module _ {ℓ} {V : Type ℓ} where
  unfoldable pub find : ℕ → AddressMap V → Option V
  find k [] = none
  find k ((j, v) ∷ m) = if j == k then some v else find k m

  -- A node for a key that the map does not have.
  unfoldable pub add : ℕ → V → AddressMap V → AddressMap V
  add k v [] = (k, v) ∷ []
  add k v ((j, w) ∷ m) = if ltb k j then (k, v) ∷ (j, w) ∷ m else (j, w) ∷ add k v m

  -- `m.insert(std::make_pair(k, v))` keeps the value that is there.
  unfoldable pub insert : ℕ → V → AddressMap V → AddressMap V
  unfolding find add
  insert k v m = elim (find k m) [ none ↦ add k v m | some w ↦ m ]

  -- `i->second = f(i->second)` at the key `k`.
  unfoldable pub modify : ℕ → (V → V) → AddressMap V → AddressMap V
  modify k f [] = []
  modify k f ((j, v) ∷ m) = if j == k then (j, f v) ∷ m else (j, v) ∷ modify k f m

  -- `m[k] = v`
  unfoldable pub assign : ℕ → V → AddressMap V → AddressMap V
  unfolding find add modify
  assign k v m = elim (find k m) [ none ↦ add k v m | some w ↦ modify k (λ _. v) m ]

  unfoldable pub erase : ℕ → AddressMap V → AddressMap V
  erase k = remove_if (λ e. e.0 == k)

  -- A loop over the map that changes each value or erases its node.
  unfoldable pub update_all : (ℕ → V → Option V) → AddressMap V → AddressMap V
  update_all f [] = []
  update_all f ((j, v) ∷ m) =
      let rest = update_all f m in elim (f j v) [ none ↦ rest | some w ↦ (j, w) ∷ rest ]

  -- The keys ascend, and the first is above `k`.
  abbrev pub Above : ℕ → AddressMap V → Type 0
  Above k [] = Unit
  Above k ((j, v) ∷ m) = (k < j) × Above j m

  abbrev pub IsSorted : AddressMap V → Type 0
  IsSorted [] = Unit
  IsSorted ((j, v) ∷ m) = Above j m
