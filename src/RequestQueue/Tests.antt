-- ===== src/RequestQueue/Tests.antt =====
-- Runs of the request queue at concrete times.
use mathlib.Core.List.{Perm}
use fp_jaringan_nirkabel.Base.{
  ℕ, ◌≡◌, ◌==◌, ◌||◌, if◌then◌else◌, not, refl, true, some, none, [], ◌∷◌, ◌++◌, pos, map, any,
  length, remove_if, Returns, arith, ◌+ℤ◌, ◌-ℤ◌,
}
use fp_jaringan_nirkabel.RequestQueue.{
  QueueEntry, RequestQueue, is_expired, is_same, drop, drop_if, push_back, make_room,
  set_expire_time, enqueue, dequeue, drop_packet_with_dst, get_size, has_destination,
}
use fp_jaringan_nirkabel.RequestQueue.Bounds.{
  rest, oldest, IsValid, enqueue-IsValid, operations-IsValid,
}
use fp_jaringan_nirkabel.RequestQueue.Contents.{
  first, for_destination, dequeue-fifo, drop_packet_with_dst-accounts,
}

abbrev entry : ℕ → ℕ → ℕ → QueueEntry
entry uid dst expire = record {
  packet = record { uid = uid; deferred_tag = none };
  header = record { source = 1; destination = dst; protocol = 17; ttl = 64 };
  ucb = 0;
  ecb = 1;
  expire = pos expire;
}

-- Full, with one entry that has expired at time 12.
abbrev waiting : RequestQueue
waiting = record {
  queue = entry 1 8 10 ∷ entry 2 9 30 ∷ entry 3 8 31 ∷ [];
  max_len = 3;
  queue_timeout = pos 30;
}

enqueue-waiting :
    enqueue (pos 5) (entry 4 8 0) waiting
    ≡ some (
      record waiting { queue = entry 2 9 30 ∷ entry 3 8 31 ∷ entry 4 8 35 ∷ [] },
      drop (entry 1 8 10) ∷ [],
      true,
    )
unfolding enqueue push_back make_room set_expire_time drop_if drop is_expired is_same ◌+ℤ◌ ◌-ℤ◌
enqueue-waiting = refl

waiting-IsValid : IsValid waiting
unfolding is_same
waiting-IsValid = record { positive = omega arith; bounded = omega arith; distinct = ground arith }

enqueue-IsValid_example : Returns (enqueue (pos 12) (entry 4 8 0) waiting) λ r.
    IsValid r.0
    × (r.0.max_len ≡ 3)
    × (r.0.queue_timeout ≡ pos 30)
    × (r.2 ≡ not (any (is_same (entry 4 8 0)) (remove_if (is_expired (pos 12)) waiting.queue)))
    × (let live = remove_if (is_expired (pos 12)) waiting.queue in
        (r.0.queue ≡ (
          if any (is_same (entry 4 8 0)) live
          then live
          else (if length live == 3 then rest live else live)
            ++ record (entry 4 8 0) { expire = pos 30 +ℤ pos 12 } ∷ []))
        × (r.1
            ≡ drop_if (is_expired (pos 12)) waiting.queue
              ++ (if any (is_same (entry 4 8 0)) live
                  then []
                  else if length live == 3
                  then oldest live
                  else [])))
enqueue-IsValid_example = enqueue-IsValid (pos 12) (entry 4 8 0) waiting waiting-IsValid

still_valid :
    IsValid (dequeue (pos 12) 8 waiting).0
    × IsValid (drop_packet_with_dst (pos 12) 8 waiting).0
    × IsValid (get_size (pos 12) waiting).0
still_valid = operations-IsValid (pos 12) 8 waiting waiting-IsValid

dequeue-fifo_example :
    let live = remove_if (is_expired (pos 12)) waiting.queue in
    let (q', calls, taken) = dequeue (pos 12) 8 waiting in
    (taken ≡ first (for_destination 8 live))
    × (for_destination 8 q'.queue ≡ rest (for_destination 8 live))
    × (remove_if (has_destination 8) q'.queue ≡ remove_if (has_destination 8) live)
dequeue-fifo_example = dequeue-fifo (pos 12) 8 waiting

drop_packet_with_dst-accounts_example :
    let (q', calls) = drop_packet_with_dst (pos 12) 8 waiting in
    Perm (map drop waiting.queue) (calls ++ map drop q'.queue)
    × (q'.queue ≡ remove_if (λ e. is_expired (pos 12) e || has_destination 8 e) waiting.queue)
drop_packet_with_dst-accounts_example = drop_packet_with_dst-accounts (pos 12) 8 waiting
