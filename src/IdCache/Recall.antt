-- ===== src/IdCache/Recall.antt =====
-- What the id cache remembers: its answers against those of a history that is never purged.
use fp_jaringan_nirkabel.Base.{
  ℕ, ◌&&◌, not, ◌≡◌, refl, sym, ap, ◌∙◌, Bool, true, false, List, [], ◌∷◌, ◌++◌, if◌then◌else◌,
  ◌+ℤ◌, ltb_ℤ, ◌≤ℤ◌, remove_if, any, length, All, arith, any-remove_if, any-append,
  remove_if-remove_if, remove_if-append, All-remove_if, All-append, Bool-cases, +ℤ_parts, inl, inr,
  ◌≤◌, ◌+◌, pos, length-append, length-remove_if-le,
}
use fp_jaringan_nirkabel.Net.{Time}
use fp_jaringan_nirkabel.IdCache.{UniqueId, IdCache, init, is_expired, is_entry, is_duplicate}

pub record Call : Type 0 where
  pub time : Time
  pub addr : ℕ
  pub id : ℕ

unfoldable pub run : IdCache → List Call → List Bool
run c [] = []
run c (k ∷ ks) = let (c', answer) = is_duplicate k.time k.addr k.id c in answer ∷ run c' ks

-- The specification forgets nothing: a call is a duplicate if a record with its address and id
-- has not expired by then.
abbrev pub recalls : List UniqueId → Call → Bool
recalls history k = any (λ u. not (is_expired k.time u) && is_entry k.addr k.id u) history

abbrev pub noted : Time → Call → UniqueId
noted lifetime k = record { context = k.addr; id = k.id; expire = lifetime +ℤ k.time }

unfoldable pub reference : Time → List UniqueId → List Call → List Bool
reference lifetime history [] = []
reference lifetime history (k ∷ ks) =
    let again = recalls history k in
    again ∷ reference lifetime (if again then history else history ++ noted lifetime k ∷ []) ks

-- The calls come in the order of the simulator's clock.
abbrev pub InOrder : Time → List Call → Type 0
InOrder now [] = Unit
InOrder now (k ∷ ks) = (now ≤ℤ k.time) × InOrder k.time ks

is_expired-later :
    (t t' : Time) (u : UniqueId) → t ≤ℤ t' → is_expired t u ≡ true → is_expired t' u ≡ true
unfolding is_expired
is_expired-later t t' u h e = ground arith

-- A cache agrees with a history if both hold the same records once the expired ones are dropped.
abbrev Agrees : Time → IdCache → List UniqueId → Type 0
Agrees now c history = remove_if (is_expired now) c.id_cache ≡ remove_if (is_expired now) history

-- Expired records that were dropped before need not be dropped again.
swallow :
    (t t' : Time) (us : List UniqueId)
    → t ≤ℤ t'
    → remove_if (is_expired t') (remove_if (is_expired t) us) ≡ remove_if (is_expired t') us
swallow t t' us h =
    remove_if-remove_if (is_expired t) (is_expired t') (λ u e. is_expired-later t t' u h e) us

Agrees-later :
    (t t' : Time) (c : IdCache) (history : List UniqueId)
    → t ≤ℤ t'
    → Agrees t c history
    → Agrees t' c history
Agrees-later t t' c history h a =
    sym (swallow t t' c.id_cache h) ∙ ap (remove_if (is_expired t')) a ∙ swallow t t' history h

module _ (c : IdCache) (history : List UniqueId) (k : Call) (a : Agrees k.time c history) where
  live-recalls :
      any (is_entry k.addr k.id) (remove_if (is_expired k.time) c.id_cache) ≡ recalls history k
  live-recalls =
      ap (any (is_entry k.addr k.id)) a
      ∙ any-remove_if (is_expired k.time) (is_entry k.addr k.id) history

  answer-recalls : (is_duplicate k.time k.addr k.id c).1 ≡ recalls history k
  unfolding is_duplicate
  answer-recalls = elim (Bool-cases (recalls history k)) [
    | inl e ↦ rw (live-recalls ∙ e, e)
    | inr e ↦ rw (live-recalls ∙ e, e)
  ]

  Agrees-next :
      Agrees k.time
        (is_duplicate k.time k.addr k.id c).0
        (if recalls history k then history else history ++ noted c.lifetime k ∷ [])
  unfolding is_duplicate
  Agrees-next = elim (Bool-cases (recalls history k)) [
    | inl e ↦ rw (live-recalls ∙ e, e) (swallow k.time k.time c.id_cache (omega arith) ∙ a)
    | inr e ↦
        rw (live-recalls ∙ e, e)
          (rw (
            remove_if-append (is_expired k.time) (remove_if (is_expired k.time) c.id_cache),
            remove_if-append (is_expired k.time) history,
            swallow k.time k.time c.id_cache (omega arith),
            a,
          ))
  ]

  lifetime-next : (is_duplicate k.time k.addr k.id c).0.lifetime ≡ c.lifetime
  unfolding is_duplicate
  lifetime-next = elim (Bool-cases (recalls history k)) [
    | inl e ↦ rw (live-recalls ∙ e)
    | inr e ↦ rw (live-recalls ∙ e)
  ]

run-eq :
    (now : Time) (c : IdCache) (history : List UniqueId) (ks : List Call)
    → InOrder now ks
    → Agrees now c history
    → run c ks ≡ reference c.lifetime history ks
unfolding run reference
run-eq now c history [] o a = refl
run-eq now c history (k ∷ ks) o a =
    let a' = Agrees-later now k.time c history o.0 a in
    let ih =
      run-eq k.time (is_duplicate k.time k.addr k.id c).0 _ ks o.1 (Agrees-next c history k a') in
    rw (answer-recalls c history k a', ih, lifetime-next c history k a')

-- A new cache, called in the order of the clock, answers each call as the history that is never
-- purged does: a call is reported as a duplicate exactly when a call with its address and request
-- id that was itself reported as new lies back no longer than the lifetime.
pub run-reference :
    (lifetime now : Time) (ks : List Call)
    → InOrder now ks
    → run (init lifetime) ks ≡ reference lifetime [] ks
unfolding init
run-reference lifetime now ks o = run-eq now (init lifetime) [] ks o refl

-- The record that a call appends is found again at once.
found :
    (us : List UniqueId) (addr id : ℕ) (expire : Time)
    → any (is_entry addr id) (us ++ record { context = addr; id = id; expire = expire } ∷ []) ≡ true
unfolding is_entry
found us addr id expire = ground (
  arith,
  any-append (is_entry addr id) us (record { context = addr; id = id; expire = expire } ∷ []),
)

fresh :
    (now lifetime : Time) (addr id : ℕ)
    → pos 0 ≤ℤ lifetime
    → is_expired now (record { context = addr; id = id; expire = lifetime +ℤ now }) ≡ false
unfolding is_expired
fresh now lifetime addr id h = ground (arith, +ℤ_parts lifetime now)

-- With a lifetime that is not negative, a call leaves in the cache a record with the call's address
-- and id, none that has expired, and at most one record more than before.
pub is_duplicate-bounds :
    (now : Time) (addr id : ℕ) (c : IdCache)
    → pos 0 ≤ℤ c.lifetime
    → let c' = (is_duplicate now addr id c).0 in
      (length c'.id_cache ≤ length c.id_cache + 1)
      × (any (is_entry addr id) c'.id_cache ≡ true)
      × All (λ u. is_expired now u ≡ false) c'.id_cache
unfolding is_duplicate
is_duplicate-bounds now addr id c h =
    elim (Bool-cases (any (is_entry addr id) (remove_if (is_expired now) c.id_cache))) [
      | inl e ↦ rw e (
        omega (arith, length-remove_if-le (is_expired now) c.id_cache),
        e,
        All-remove_if (is_expired now) c.id_cache,
      )
      | inr e ↦ rw e (
        omega (
          arith,
          length-remove_if-le (is_expired now) c.id_cache,
          length-append (remove_if (is_expired now) c.id_cache),
        ),
        found (remove_if (is_expired now) c.id_cache) addr id _,
        All-append (λ u. is_expired now u ≡ false) (remove_if (is_expired now) c.id_cache) _
            (All-remove_if (is_expired now) c.id_cache) (fresh now c.lifetime addr id h, tt),
      )
    ]

is_duplicate-any :
    (now : Time) (addr id : ℕ) (c : IdCache)
    → (is_duplicate now addr id c).1
      ≡ any (is_entry addr id) (remove_if (is_expired now) c.id_cache)
unfolding is_duplicate
is_duplicate-any now addr id c =
    elim (Bool-cases (any (is_entry addr id) (remove_if (is_expired now) c.id_cache))) [
      | inl old ↦ rw old refl
      | inr fresh ↦ rw fresh refl
    ]

not_expired :
    (now later lifetime : Time) (addr id : ℕ)
    → later ≤ℤ lifetime +ℤ now
    → is_expired later (record { context = addr; id = id; expire = lifetime +ℤ now }) ≡ false
unfolding is_expired
not_expired now later lifetime addr id h = ground arith

-- A record of the request that lasts to the given time at least.
abbrev pub lasts : ℕ → ℕ → Time → UniqueId → Bool
lasts addr id until u = is_entry addr id u && not (ltb_ℤ u.expire until)

abbrev pub Remembers : ℕ → ℕ → Time → IdCache → Type 0
Remembers addr id until c = any (lasts addr id until) c.id_cache ≡ true

lasting_left :
    (addr id : ℕ) (now until : Time) (us : List UniqueId)
    → now ≤ℤ until
    → any (lasts addr id until) us ≡ true
    → any (lasts addr id until) (remove_if (is_expired now) us) ≡ true
unfolding is_expired
lasting_left addr id now until [] h k = absurd (cc)
lasting_left addr id now until (u ∷ us) h k = ground (arith, lasting_left addr id now until us h)

lasting_entry :
    (addr id : ℕ) (until : Time) (us : List UniqueId)
    → any (lasts addr id until) us ≡ true
    → any (is_entry addr id) us ≡ true
lasting_entry addr id until [] h = absurd (cc)
lasting_entry addr id until (u ∷ us) h = ground (arith, lasting_entry addr id until us)

-- While the record lasts, the request is a duplicate, and no call takes the record out.
pub is_duplicate_remembered :
    (now until : Time) (addr id : ℕ) (c : IdCache)
    → Remembers addr id until c
    → now ≤ℤ until
    → (is_duplicate now addr id c).1 ≡ true
is_duplicate_remembered now until addr id c m h =
    is_duplicate-any now addr id c
    ∙ lasting_entry addr id until (remove_if (is_expired now) c.id_cache)
        (lasting_left addr id now until c.id_cache h m)

pub is_duplicate-Remembers :
    (now until : Time) (addr id addr' id' : ℕ) (c : IdCache)
    → Remembers addr id until c
    → now ≤ℤ until
    → Remembers addr id until (is_duplicate now addr' id' c).0
unfolding is_duplicate
is_duplicate-Remembers now until addr id addr' id' c m h =
    let us = remove_if (is_expired now) c.id_cache in
    let left = lasting_left addr id now until c.id_cache h m in
    elim (Bool-cases (any (is_entry addr' id') us)) [
      | inl old ↦ rw old left
      | inr new ↦ rw (new, any-append (lasts addr id until) us, left) refl
    ]

-- A request that was new is remembered for the life time.
pub new-Remembers :
    (now : Time) (addr id : ℕ) (c : IdCache)
    → (is_duplicate now addr id c).1 ≡ false
    → Remembers addr id (c.lifetime +ℤ now) (is_duplicate now addr id c).0
unfolding is_duplicate is_entry
new-Remembers now addr id c new =
    let us = remove_if (is_expired now) c.id_cache in
    let fresh = sym (is_duplicate-any now addr id c) ∙ new in
    rw (fresh, any-append (lasts addr id (c.lifetime +ℤ now)) us) (ground arith)
