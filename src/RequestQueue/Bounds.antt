-- ===== src/RequestQueue/Bounds.antt =====
-- The request queue's limits: its length, and one entry for each packet and destination.
use mathlib.Core.List.{append-nil}
use fp_jaringan_nirkabel.Base.{
  if◌then◌else◌, sym, subst, ◌==◌, ◌+ℤ◌, ℕ, suc, ◌≡◌, ◌≤◌, ◌<◌, ◌+◌, refl, Bool, true, false, none,
  some, List, [], ◌∷◌, ◌++◌, any, length, All, remove_if, arith, length-remove_if-le, length-append,
  remove_if_keeps, All-append, Bool-cases, inl, inr, any-eq-false, Returns, OnSome, Option, not,
}
use native.Mathlib.Numerals.{add-one}
use fp_jaringan_nirkabel.Net.{Time}
use fp_jaringan_nirkabel.RequestQueue.{
  drop, drop_if, QueueEntry, RequestQueue, ErrorCall, push_back, keep, purge, dequeued, is_expired,
  is_same, make_room, enqueue, set_expire_time, dequeue, take_first, drop_packet_with_dst,
  has_destination, get_size,
}

-- No two entries have one packet uid and one destination.
abbrev pub Distinct : List QueueEntry → Type 0
Distinct [] = Unit
Distinct (e ∷ es) = All (λ i. is_same e i ≡ false) es × Distinct es

pub record IsValid (q : RequestQueue) : Type 0 where
  pub positive : 0 < q.max_len
  pub bounded : length q.queue ≤ q.max_len
  pub distinct : Distinct q.queue

remove_if-Distinct :
    (p : QueueEntry → Bool) (es : List QueueEntry) → Distinct es → Distinct (remove_if p es)
remove_if-Distinct p [] d = tt
remove_if-Distinct p (e ∷ es) d =
    ground (arith, remove_if_keeps p (λ i. is_same e i ≡ false) es d.0, remove_if-Distinct p es d.1)

-- A look for `e` in the queue and one for `i` compare the same numbers.
is_same_symm : (e i : QueueEntry) → is_same e i ≡ false → is_same i e ≡ false
unfolding is_same
is_same_symm e i h = ground arith

append-Distinct :
    (now t : Time) (e : QueueEntry) (es : List QueueEntry)
    → Distinct es
    → All (λ i. is_same e i ≡ false) es
    → Distinct (es ++ set_expire_time now t e ∷ [])
append-Distinct now t e [] d a = (tt, tt)
append-Distinct now t e (i ∷ es) d a = (
  All-append (λ j. is_same i j ≡ false) es _ d.0
      (unfold set_expire_time is_same in (is_same_symm e i a.0), tt),
  append-Distinct now t e es d.1 a.1,
)

make_room-Returns :
    (max_len : ℕ) (e : QueueEntry) (es : List QueueEntry)
    → 0 < max_len
    → length es ≤ max_len
    → Distinct es
    → All (λ i. is_same e i ≡ false) es
    → Returns
        (make_room max_len es)
        λ r. (length r.0 < max_len) × Distinct r.0 × All (λ i. is_same e i ≡ false) r.0
unfolding make_room
make_room-Returns max_len x [] p h d a = ground arith
make_room-Returns max_len x (e ∷ es) p h d a = ground arith

-- The entries of a full queue but the oldest, and the call for that one.
abbrev pub rest : List QueueEntry → List QueueEntry
rest [] = []
rest (e ∷ es) = es

abbrev pub oldest : List QueueEntry → List ErrorCall
oldest [] = []
oldest (e ∷ es) = drop e ∷ []

make_room_lem :
    (max_len : ℕ) (es : List QueueEntry)
    → 0 < max_len
    → make_room max_len es
      ≡ some (
        if length es == max_len then rest es else es,
        if length es == max_len then oldest es else [],
      )
unfolding make_room
make_room_lem max_len [] p = ground arith
make_room_lem max_len (e ∷ es) p = ground arith

push_back-IsValid :
    (now : Time) (entry : QueueEntry) (q : RequestQueue) (dropped : List ErrorCall)
    (room : Option (List QueueEntry × List ErrorCall))
    → 0 < q.max_len
    → Returns room
        (λ r. (length r.0 < q.max_len) × Distinct r.0 × All (λ i. is_same entry i ≡ false) r.0)
    → Returns (push_back now entry q dropped room) λ r.
      IsValid r.0 × (r.0.max_len ≡ q.max_len) × (r.0.queue_timeout ≡ q.queue_timeout) × (r.2 ≡ true)
unfolding push_back
push_back-IsValid now entry q dropped none p h = h
push_back-IsValid now entry q dropped (some (es, oldest)) p h = (
  record {
    positive = p;
    bounded = omega (arith, length-append es (set_expire_time now q.queue_timeout entry ∷ []));
    distinct = append-Distinct now q.queue_timeout entry es h.1 h.2;
  },
  refl,
  refl,
  refl,
)

-- `Enqueue` in a valid queue never reads the front of an empty vector and leaves a valid queue with
-- the same limit and timeout. It refuses an entry whose packet uid and destination a live entry has;
-- then the live entries stay. Any other entry is put behind them with the queue's timeout ahead of
-- it, where the oldest live entry gives way if the queue is full. The expired entries are dropped
-- first, then that oldest one, each with one call.
pub enqueue-IsValid :
    (now : Time) (entry : QueueEntry) (q : RequestQueue)
    → IsValid q
    → Returns (enqueue now entry q) λ r.
      IsValid r.0
      × (r.0.max_len ≡ q.max_len)
      × (r.0.queue_timeout ≡ q.queue_timeout)
      × (r.2 ≡ not (any (is_same entry) (remove_if (is_expired now) q.queue)))
      × (let live = remove_if (is_expired now) q.queue in
          (r.0.queue ≡ (
            if any (is_same entry) live
            then live
            else (if length live == q.max_len then rest live else live)
              ++ record entry { expire = q.queue_timeout +ℤ now } ∷ []))
          × (r.1
              ≡ drop_if (is_expired now) q.queue
                ++ (if any (is_same entry) live
                    then []
                    else if length live == q.max_len
                    then oldest live
                    else [])))
unfolding enqueue push_back set_expire_time purge
enqueue-IsValid now entry q v =
    let live = remove_if (is_expired now) q.queue in
    let short = length-remove_if-le (is_expired now) q.queue in
    let distinct = remove_if-Distinct (is_expired now) q.queue v.distinct in
    elim (Bool-cases (any (is_same entry) live)) [
      | inl old ↦ rw old (
        record { positive = v.positive; bounded = omega arith; distinct = distinct },
        refl,
        refl,
        refl,
        (refl, sym (append-nil (drop_if (is_expired now) q.queue))),
      )
      | inr new ↦
          let room = make_room_lem q.max_len live v.positive in
          let q' = (purge now q).0 in
          let dropped = (purge now q).1 in
          let es = if length live == q.max_len then rest live else live in
          let first = if length live == q.max_len then oldest live else [] in
          let fits =
            subst
              (λ o. Returns o (λ r.
                (length r.0 < q.max_len) × Distinct r.0 × All (λ i. is_same entry i ≡ false) r.0))
              room
              (make_room-Returns q.max_len entry live v.positive (omega arith) distinct
                (any-eq-false (is_same entry) live new)) in
          let (valid, limit, timeout, taken) =
            push_back-IsValid now entry q' dropped (some (es, first)) v.positive fits in
          rw (new, room) (valid, limit, timeout, taken, (refl, refl))
    ]

-- What holds of all entries holds of the one that is taken and of the rest.
keep-All :
    (P : QueueEntry → Type 0) (e : QueueEntry) (o : Option (QueueEntry × List QueueEntry))
    → P e
    → OnSome o (λ r. P r.0 × All P r.1)
    → OnSome (keep e o) (λ r. P r.0 × All P r.1)
unfolding keep
keep-All P e none p h = tt
keep-All P e (some (x, rest)) p h = (h.0, (p, h.1))

pub take_first-All :
    (P : QueueEntry → Type 0) (dst : ℕ) (es : List QueueEntry)
    → All P es
    → OnSome (take_first dst es) (λ r. P r.0 × All P r.1)
unfolding take_first
take_first-All P dst [] h = tt
take_first-All P dst (e ∷ es) h = elim (Bool-cases (has_destination dst e)) [
  | inl hit ↦ rw hit h
  | inr miss ↦ rw miss (keep-All P e (take_first dst es) h.0 (take_first-All P dst es h.1))
]

keep-Distinct :
    (n : ℕ) (e : QueueEntry) (o : Option (QueueEntry × List QueueEntry))
    → OnSome o (λ r. (is_same e r.0 ≡ false) × All (λ i. is_same e i ≡ false) r.1)
    → OnSome o (λ r. (length r.1 + 1 ≡ n) × Distinct r.1)
    → OnSome (keep e o) (λ r. (length r.1 + 1 ≡ suc n) × Distinct r.1)
unfolding keep
keep-Distinct n e none a d = tt
keep-Distinct n e (some (x, rest)) a d = (omega arith, (a.1, d.1))

take_first-Distinct :
    (dst : ℕ) (es : List QueueEntry)
    → Distinct es
    → OnSome (take_first dst es) (λ r. (length r.1 + 1 ≡ length es) × Distinct r.1)
unfolding take_first
take_first-Distinct dst [] d = tt
take_first-Distinct dst (e ∷ es) d = elim (Bool-cases (has_destination dst e)) [
  | inl hit ↦ rw hit (add-one (length es), d.1)
  | inr miss ↦ rw miss (
      keep-Distinct (length es) e (take_first dst es)
        (take_first-All (λ i. is_same e i ≡ false) dst es d.0) (take_first-Distinct dst es d.1))
]

purge-IsValid : (now : Time) (q : RequestQueue) → IsValid q → IsValid (purge now q).0
unfolding purge
purge-IsValid now q v = record {
  positive = v.positive;
  bounded = omega (arith, length-remove_if-le (is_expired now) q.queue);
  distinct = remove_if-Distinct (is_expired now) q.queue v.distinct;
}

dequeued-IsValid :
    (q : RequestQueue) (o : Option (QueueEntry × List QueueEntry)) (dropped : List ErrorCall)
    → IsValid q
    → OnSome o (λ r. (length r.1 + 1 ≡ length q.queue) × Distinct r.1)
    → IsValid (dequeued q dropped o).0
unfolding dequeued
dequeued-IsValid q none dropped v h = v
dequeued-IsValid q (some (x, rest)) dropped v h = record {
  positive = v.positive;
  bounded = omega arith;
  distinct = h.1;
}

-- Every other operation leaves a valid queue.
pub operations-IsValid :
    (now : Time) (dst : ℕ) (q : RequestQueue)
    → IsValid q
    → IsValid (dequeue now dst q).0
      × IsValid (drop_packet_with_dst now dst q).0
      × IsValid (get_size now q).0
unfolding dequeue drop_packet_with_dst get_size
operations-IsValid now dst q v =
    let p = purge-IsValid now q v in
    (
      dequeued-IsValid (purge now q).0 (take_first dst (purge now q).0.queue) _ p
          (take_first-Distinct dst (purge now q).0.queue p.distinct),
      record {
        positive = p.positive;
        bounded =
            omega
              (arith, length-remove_if-le (has_destination dst) (purge now q).0.queue, p.bounded);
        distinct = remove_if-Distinct (has_destination dst) (purge now q).0.queue p.distinct;
      },
      p,
    )
