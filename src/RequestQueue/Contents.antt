-- ===== src/RequestQueue/Contents.antt =====
-- What the request queue's operations do to the packets: which leave, in what order, and which are
-- handed to their error callbacks.
use mathlib.Core.List.{Perm, perm_middle, append_assoc}
use mathlib.Core.List.Perm
use fp_jaringan_nirkabel.Base.{
  ℕ, ◌||◌, ◌≡◌, refl, Bool, true, false, none, some, List, [], ◌∷◌, ◌++◌, map, remove_if, arith,
  Bool-cases, inl, inr, not, Option,
}
use fp_jaringan_nirkabel.Net.{Time}
use fp_jaringan_nirkabel.RequestQueue.Bounds.{rest}
use fp_jaringan_nirkabel.RequestQueue.{
  QueueEntry, RequestQueue, ErrorCall, drop, drop_if, keep, purge, dequeued, is_expired, dequeue,
  take_first, drop_packet_with_dst, has_destination,
}

drop_if-perm :
    (p : QueueEntry → Bool) (es : List QueueEntry)
    → Perm (map drop es) (drop_if p es ++ map drop (remove_if p es))
unfolding drop_if
drop_if-perm p [] = Perm.nil
drop_if-perm p (e ∷ es) = elim (Bool-cases (p e)) [
  | inl hit ↦ rw hit (Perm.cons (drop e) (drop_if-perm p es))
  | inr miss ↦ rw miss (
      Perm.trans (Perm.cons (drop e) (drop_if-perm p es))
        (Perm.symm (perm_middle (drop_if p es) _)))
]

remove_if-remove_if :
    (p r : QueueEntry → Bool) (es : List QueueEntry)
    → remove_if r (remove_if p es) ≡ remove_if (λ e. p e || r e) es
remove_if-remove_if p r [] = refl
remove_if-remove_if p r (e ∷ es) = ground (arith, remove_if-remove_if p r es)

-- `DropPacketWithDst` removes exactly the packets for the destination and the expired ones, keeps
-- the others in order, and hands each packet that it removes to its error callback once.
pub drop_packet_with_dst-accounts :
    (now : Time) (dst : ℕ) (q : RequestQueue)
    → let (q', calls) = drop_packet_with_dst now dst q in
      Perm (map drop q.queue) (calls ++ map drop q'.queue)
      × (q'.queue ≡ remove_if (λ e. is_expired now e || has_destination dst e) q.queue)
unfolding drop_packet_with_dst
drop_packet_with_dst-accounts now dst q =
    let live = remove_if (is_expired now) q.queue in
    (
      rw append_assoc (
          Perm.trans (drop_if-perm (is_expired now) q.queue) (
            Perm.append_left (drop_if (is_expired now) q.queue)
              (drop_if-perm (has_destination dst) live))),
      remove_if-remove_if (is_expired now) (has_destination dst) q.queue,
    )

-- The entries for one destination, oldest first.
abbrev pub for_destination : ℕ → List QueueEntry → List QueueEntry
for_destination dst = remove_if (λ e. not (has_destination dst e))

abbrev pub first : List QueueEntry → Option QueueEntry
first [] = none
first (e ∷ es) = some e

-- `Dequeue` as the two views of a queue see it.
abbrev Takes : ℕ → List QueueEntry → Option QueueEntry → List QueueEntry → Type 0
Takes dst before taken after =
    (taken ≡ first (for_destination dst before))
    × (for_destination dst after ≡ rest (for_destination dst before))
    × (remove_if (has_destination dst) after ≡ remove_if (has_destination dst) before)

abbrev taken_entry :
    List QueueEntry → Option (QueueEntry × List QueueEntry) → Option QueueEntry × List QueueEntry
taken_entry es none = (none, es)
taken_entry es (some (e, after)) = (some e, after)

keep-Takes :
    (dst : ℕ) (e : QueueEntry) (es : List QueueEntry) (o : Option (QueueEntry × List QueueEntry))
    → has_destination dst e ≡ false
    → (let (r, after) = taken_entry es o in Takes dst es r after)
    → let (r, after) = taken_entry (e ∷ es) (keep e o) in Takes dst (e ∷ es) r after
unfolding keep
keep-Takes dst e es none miss t = ground arith
keep-Takes dst e es (some (x, after)) miss t = ground arith

take_first_hit :
    (dst : ℕ) (e : QueueEntry) (es : List QueueEntry)
    → has_destination dst e ≡ true
    → take_first dst (e ∷ es) ≡ some (e, es)
unfolding take_first
take_first_hit dst e es h = rw h

take_first_miss :
    (dst : ℕ) (e : QueueEntry) (es : List QueueEntry)
    → has_destination dst e ≡ false
    → take_first dst (e ∷ es) ≡ keep e (take_first dst es)
unfolding take_first
take_first_miss dst e es h = rw h

take_first-none : (dst : ℕ) → take_first dst [] ≡ none
unfolding take_first
take_first-none dst = refl

take_first-Takes :
    (dst : ℕ) (es : List QueueEntry)
    → let (r, after) = taken_entry es (take_first dst es) in Takes dst es r after
take_first-Takes dst [] = rw take_first-none (refl, refl, refl)
take_first-Takes dst (e ∷ es) = elim (Bool-cases (has_destination dst e)) [
  | inl hit ↦ rw (take_first_hit dst e es hit, hit) (refl, refl, refl)
  | inr miss ↦
      rw (take_first_miss dst e es miss)
        (keep-Takes dst e es (take_first dst es) miss (take_first-Takes dst es))
]

dequeued-Takes :
    (dst : ℕ) (q : RequestQueue) (dropped : List ErrorCall)
    (o : Option (QueueEntry × List QueueEntry))
    → (let (r, after) = taken_entry q.queue o in Takes dst q.queue r after)
    → let (q', calls, r) = dequeued q dropped o in Takes dst q.queue r q'.queue
unfolding dequeued
dequeued-Takes dst q dropped none t = t
dequeued-Takes dst q dropped (some (e, after)) t = t

-- `Dequeue` gives the oldest live entry for the destination, or nothing if there is none. The
-- destination's other entries stay, in order, and so do those for all other destinations.
pub dequeue-fifo :
    (now : Time) (dst : ℕ) (q : RequestQueue)
    → let live = remove_if (is_expired now) q.queue in
      let (q', calls, entry) = dequeue now dst q in
      (entry ≡ first (for_destination dst live))
      × (for_destination dst q'.queue ≡ rest (for_destination dst live))
      × (remove_if (has_destination dst) q'.queue ≡ remove_if (has_destination dst) live)
unfolding dequeue
dequeue-fifo now dst q =
    dequeued-Takes dst (purge now q).0 _ (take_first dst (purge now q).0.queue)
      (take_first-Takes dst (purge now q).0.queue)
