-- ===== src/AddressMap/Laws.antt =====
-- Lookups after each operation of the map, and the order of its keys.
use mathlib.Core.Option as Opt
use fp_jaringan_nirkabel.Base.{
  ℕ, ◌<◌, ◌≤◌, ◌≡◌, refl, Option, none, some, [], ◌∷◌, ◌++◌, All, length, ◌+◌, arith, if◌then◌else◌,
  ◌==◌,
}
use fp_jaringan_nirkabel.AddressMap.{
  AddressMap, find, add, insert, modify, assign, erase, update_all, Above, IsSorted,
}

module _ {ℓ} {V : Type ℓ} where
  pub find-add :
      (k j : ℕ) (v : V) (m : AddressMap V)
      → find k m ≡ none
      → find j (add k v m) ≡ (if k == j then some v else find j m)
  unfolding find add
  find-add k j v [] h = refl
  find-add k j v ((i, w) ∷ m) h = ground (arith, find-add k j v m)

  pub find-modify :
      (k j : ℕ) (f : V → V) (m : AddressMap V)
      → find j (modify k f m) ≡ (if k == j then Opt.map f (find j m) else find j m)
  unfolding find modify
  find-modify k j f [] = ground arith
  find-modify k j f ((i, w) ∷ m) = ground (arith, find-modify k j f m)

  pub find-assign :
      (k j : ℕ) (v : V) (m : AddressMap V)
      → find j (assign k v m) ≡ (if k == j then some v else find j m)
  unfolding assign
  find-assign k j v m = ground (arith, find-add k j v m, find-modify k j (λ _. v) m)

  pub find-insert :
      (k j : ℕ) (v : V) (m : AddressMap V)
      → find k m ≡ none
      → find j (insert k v m) ≡ (if k == j then some v else find j m)
  unfolding insert
  find-insert k j v m h = ground (arith, find-add k j v m)

  pub find-erase :
      (k j : ℕ) (m : AddressMap V) → find j (erase k m) ≡ (if k == j then none else find j m)
  unfolding find erase
  find-erase k j [] = ground arith
  find-erase k j ((i, w) ∷ m) = ground (arith, find-erase k j m)

  pub find-Above : (k j : ℕ) (m : AddressMap V) → Above k m → j ≤ k → find j m ≡ none
  unfolding find
  find-Above k j [] a h = refl
  find-Above k j ((i, w) ∷ m) a h = ground (arith, find-Above i j m a.1)

  pub Above-mono : (k i : ℕ) (m : AddressMap V) → Above k m → i ≤ k → Above i m
  Above-mono k i [] a h = tt
  Above-mono k i ((j, w) ∷ m) a h = (omega arith, a.1)

  pub Above-IsSorted : (k : ℕ) (m : AddressMap V) → Above k m → IsSorted m
  Above-IsSorted k [] a = tt
  Above-IsSorted k ((i, w) ∷ m) a = a.1

  update_all-Above :
      (f : ℕ → V → Option V) (k : ℕ) (m : AddressMap V) → Above k m → Above k (update_all f m)
  unfolding update_all
  update_all-Above f k [] a = tt
  update_all-Above f k ((j, w) ∷ m) a =
      ground (arith, update_all-Above f j m a.1, Above-mono j k (update_all f m))

  pub update_all-IsSorted :
      (f : ℕ → V → Option V) (m : AddressMap V) → IsSorted m → IsSorted (update_all f m)
  unfolding update_all
  update_all-IsSorted f [] s = tt
  update_all-IsSorted f ((j, w) ∷ m) s =
      ground (arith, update_all-Above f j m s, Above-IsSorted j (update_all f m))

  -- A loop over the map acts at each key on its own.
  pub find-update_all :
      (f : ℕ → V → Option V) (j : ℕ) (m : AddressMap V)
      → IsSorted m
      → find j (update_all f m) ≡ Opt.bind (find j m) (f j)
  unfolding find update_all Opt.bind
  find-update_all f j [] s = refl
  find-update_all f j ((i, w) ∷ m) s =
      ground (arith, find-update_all f j m (Above-IsSorted i m s), find-Above i j m s)

  add-Above :
      (k i : ℕ) (v : V) (m : AddressMap V)
      → Above i m
      → i < k
      → find k m ≡ none
      → Above i (add k v m)
  unfolding find add
  add-Above k i v [] a h n = (h, tt)
  add-Above k i v ((j, w) ∷ m) a h n = ground (arith, add-Above k j v m a.1)

  add-IsSorted :
      (k : ℕ) (v : V) (m : AddressMap V) → IsSorted m → find k m ≡ none → IsSorted (add k v m)
  unfolding find add
  add-IsSorted k v [] s n = tt
  add-IsSorted k v ((j, w) ∷ m) s n = ground (arith, add-Above k j v m s)

  modify-Above : (k i : ℕ) (f : V → V) (m : AddressMap V) → Above i m → Above i (modify k f m)
  unfolding modify
  modify-Above k i f [] a = tt
  modify-Above k i f ((j, w) ∷ m) a = ground (arith, modify-Above k j f m a.1)

  pub modify-IsSorted :
      (k : ℕ) (f : V → V) (m : AddressMap V) → IsSorted m → IsSorted (modify k f m)
  unfolding modify
  modify-IsSorted k f [] s = tt
  modify-IsSorted k f ((j, w) ∷ m) s = ground (arith, modify-Above k j f m s)

  pub insert-IsSorted : (k : ℕ) (v : V) (m : AddressMap V) → IsSorted m → IsSorted (insert k v m)
  unfolding insert
  insert-IsSorted k v m s = ground (arith, add-IsSorted k v m s)

  pub assign-IsSorted : (k : ℕ) (v : V) (m : AddressMap V) → IsSorted m → IsSorted (assign k v m)
  unfolding assign
  assign-IsSorted k v m s = ground (arith, add-IsSorted k v m s, modify-IsSorted k (λ _. v) m s)

  erase-Above : (k i : ℕ) (m : AddressMap V) → Above i m → Above i (erase k m)
  unfolding erase
  erase-Above k i [] a = tt
  erase-Above k i ((j, w) ∷ m) a = ground (arith, erase-Above k j m a.1, Above-mono j i (erase k m))

  pub erase-IsSorted : (k : ℕ) (m : AddressMap V) → IsSorted m → IsSorted (erase k m)
  unfolding erase
  erase-IsSorted k [] s = tt
  erase-IsSorted k ((j, w) ∷ m) s =
      ground (arith, erase-Above k j m s, Above-IsSorted j (erase k m))

  -- A key above all others is added at the end.
  pub insert-append :
      (k : ℕ) (v : V) (m : AddressMap V) → All (λ e. e.0 < k) m → insert k v m ≡ m ++ (k, v) ∷ []
  unfolding insert find add
  insert-append k v [] h = refl
  insert-append k v ((j, w) ∷ m) h = ground (arith, insert-append k v m h.1)

  length-add : (k : ℕ) (v : V) (m : AddressMap V) → length (add k v m) ≡ length m + 1
  unfolding add
  length-add k v [] = refl
  length-add k v ((j, w) ∷ m) = ground (arith, length-add k v m)

  pub length-insert :
      (k : ℕ) (v : V) (m : AddressMap V) → find k m ≡ none → length (insert k v m) ≡ length m + 1
  unfolding insert
  length-insert k v m h = ground (arith, length-add k v m)

  pub find-below : (k : ℕ) (m : AddressMap V) → All (λ e. e.0 < k) m → find k m ≡ none
  unfolding find
  find-below k [] h = refl
  find-below k ((j, w) ∷ m) h = ground (arith, find-below k m h.1)

  -- An ascending map in front of one more entry, and in front of what is behind it.
  pub Above-step :
      (k : ℕ) (v : V) (front m : AddressMap V)
      → Above k m
      → All (λ e. Above e.0 ((k, v) ∷ m)) front
      → All (λ e. e.0 < k) front
        × All (λ e. Above e.0 m) front
        × All (λ e. Above e.0 m) (front ++ (k, v) ∷ [])
  Above-step k v [] m a h = (tt, tt, (a, tt))
  Above-step k v ((i, w) ∷ front) m a (h, hs) =
      let (below, behind, all) = Above-step k v front m a hs in
      let next = Above-mono k i m a (omega arith) in ((h.0, below), (next, behind), (next, all))
