-- ===== src/RouteEntry/Precursors.antt =====
-- The precursor list as a set of addresses.
use fp_jaringan_nirkabel.Base.{
  ℕ, ◌≡◌, ◌==◌, ◌||◌, refl, Bool, true, false, not, List, [], ◌∷◌, ◌++◌, any, All, arith,
  if◌then◌else◌, remove_if, Bool-cases, inl, inr, ◌∙◌, any-append, any-eq-false, All-append,
  remove_if_keeps, ==_iff,
}
use fp_jaringan_nirkabel.RouteEntry.{
  RoutingTableEntry, lookup_precursor, insert_precursor, delete_precursor, collect, get_precursors,
  is_precursor_list_empty,
}

abbrev pub has : ℕ → List ℕ → Bool
has x = any (λ j. j == x)

abbrev pub Distinct : List ℕ → Type 0
Distinct [] = Unit
Distinct (i ∷ is) = All (λ j. (j == i) ≡ false) is × Distinct is

Distinct-append :
    (is : List ℕ) (x : ℕ) → Distinct is → All (λ j. (j == x) ≡ false) is → Distinct (is ++ x ∷ [])
Distinct-append [] x d a = (tt, tt)
Distinct-append (i ∷ is) x d a = (
  All-append (λ j. (j == i) ≡ false) is (x ∷ []) d.0 (ground arith, tt),
  Distinct-append is x d.1 a.1,
)

Distinct-remove_if : (p : ℕ → Bool) (is : List ℕ) → Distinct is → Distinct (remove_if p is)
Distinct-remove_if p [] d = tt
Distinct-remove_if p (i ∷ is) d = elim (Bool-cases (p i)) [
  | inl hit ↦ rw hit (Distinct-remove_if p is d.1)
  | inr miss ↦
      rw miss (remove_if_keeps p (λ j. (j == i) ≡ false) is d.0, Distinct-remove_if p is d.1)
]

has-remove :
    (id x : ℕ) (is : List ℕ)
    → has x (remove_if (λ i. i == id) is) ≡ (if id == x then false else has x is)
has-remove id x [] = ground arith
has-remove id x (i ∷ is) = ground (arith, has-remove id x is)

-- For a precursor list with no address twice: `InsertPrecursor` succeeds exactly if the address is
-- new, and after it the list has the address and what it had before. `DeletePrecursor` succeeds
-- exactly if the address is there, and after it the list has what it had before but for the address.
-- Both leave no address twice.
pub precursor_laws :
    (id x : ℕ) (e : RoutingTableEntry)
    → Distinct e.precursor_list
    → let (added, fresh) = insert_precursor id e in
      let (removed, found) = delete_precursor id e in
      (fresh ≡ not (lookup_precursor id e))
      × (found ≡ lookup_precursor id e)
      × (lookup_precursor x added ≡ (id == x || lookup_precursor x e))
      × (lookup_precursor x removed ≡ (if id == x then false else lookup_precursor x e))
      × Distinct added.precursor_list
      × Distinct removed.precursor_list
unfolding insert_precursor delete_precursor lookup_precursor
precursor_laws id x e d =
    let is = e.precursor_list in
    elim (Bool-cases (has id is)) [
      | inl there ↦
          rw there (
            refl,
            refl,
            ground arith,
            has-remove id x is,
            d,
            Distinct-remove_if (λ i. i == id) is d,
          )
      | inr new ↦ rw new (
        refl,
        refl,
        any-append (λ j. j == x) is (id ∷ []) ∙ ground arith,
        ground arith,
        Distinct-append is id d (any-eq-false (λ j. j == id) is new),
        d,
      )
    ]

-- An address that is there is there under every equal number.
has_one : (i x : ℕ) (is : List ℕ) → (i == x) ≡ true → has i is ≡ has x is
has_one i x is h = rw ((==_iff i x).0 h)

-- The union of the caller's list and the entry's.
has-collect : (x : ℕ) (is prec : List ℕ) → has x (collect is prec) ≡ (has x prec || has x is)
unfolding collect
has-collect x [] prec = ground arith
has-collect x (i ∷ is) prec =
    has-collect x is (if has i prec then prec else prec ++ i ∷ [])
    ∙ ground (arith, any-append (λ j. j == x) prec (i ∷ []), has_one i x prec)

Distinct-collect : (is prec : List ℕ) → Distinct prec → Distinct (collect is prec)
unfolding collect
Distinct-collect [] prec d = d
Distinct-collect (i ∷ is) prec d = elim (Bool-cases (any (λ j. j == i) prec)) [
  | inl old ↦ rw old (Distinct-collect is prec d)
  | inr new ↦ rw new (
      Distinct-collect is (prec ++ i ∷ [])
        (Distinct-append prec i d (any-eq-false (λ j. j == i) prec new)))
]

union :
    (x : ℕ) (is prec : List ℕ)
    → Distinct prec
    → (has x (if is_precursor_list_empty is then prec else collect is prec)
        ≡ (has x prec || has x is))
      × Distinct (if is_precursor_list_empty is then prec else collect is prec)
unfolding is_precursor_list_empty
union x [] prec d = (ground arith, d)
union x (i ∷ is) prec d = (has-collect x (i ∷ is) prec, Distinct-collect (i ∷ is) prec d)

-- `GetPrecursors` makes the caller's list the union of the two, and leaves no address twice in it if
-- there was none twice.
pub get_precursors-union :
    (x : ℕ) (e : RoutingTableEntry) (prec : List ℕ)
    → Distinct prec
    → (has x (get_precursors e prec) ≡ (has x prec || lookup_precursor x e))
      × Distinct (get_precursors e prec)
unfolding get_precursors lookup_precursor
get_precursors-union x e prec d = union x e.precursor_list prec d
