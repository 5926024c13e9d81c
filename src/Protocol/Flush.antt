-- ===== src/Protocol/Flush.antt =====
-- `SendPacketFromQueue` as one pass over the queue.
use fp_jaringan_nirkabel.Base.{
  ℕ, zero, suc, ◌<◌, ◌≡◌, refl, sym, ap, ◌∙◌, subst, inl, inr, Bool, false, not, ◌&&◌, none, some,
  List, [], ◌∷◌, ◌++◌, if◌then◌else◌, map, arith, length, length-remove_if-le, All, All-remove_if,
  remove_if, remove_if_id, Bool-cases, Option-cases, OnSome,
}
use mathlib.Core.List.{append-nil, append_assoc}
use fp_jaringan_nirkabel.Net.{Time}
use fp_jaringan_nirkabel.RouteEntry.{Ipv4Route}
use fp_jaringan_nirkabel.RequestQueue.{
  RequestQueue, QueueEntry, ErrorCall, is_expired, has_destination, purge, drop_if, keep,
  take_first, dequeued, dequeue,
}
use fp_jaringan_nirkabel.RequestQueue.Bounds.{take_first-All}
use fp_jaringan_nirkabel.Protocol.{Node, Protocol, Output, dropped}
use fp_jaringan_nirkabel.Protocol.Queueing.{
  is_elsewhere, forward, put_before, send_loop, send_packet_from_queue,
}

module _ (node : Node) (dst : ℕ) (route : Ipv4Route) where
  -- The packets for the destination go out in their order, up to the first that was sent to another
  -- interface, which is lost; the others stay.
  abbrev pub flush : List QueueEntry → List QueueEntry × List Output
  flush [] = ([], [])
  flush (e ∷ es) =
      let (rest, out) = flush es in
      if has_destination dst e
      then if is_elsewhere node route e.packet.deferred_tag
        then (es, [])
        else (rest, forward route e ∷ out)
      else (e ∷ rest, out)

  -- Where no packet for the destination was sent to another interface.
  flush_undisturbed :
      (es : List QueueEntry)
      → All (λ e. has_destination dst e && is_elsewhere node route e.packet.deferred_tag ≡ false) es
      → flush es ≡ (
        remove_if (has_destination dst) es,
        map (forward route) (remove_if (λ e. not (has_destination dst e)) es),
      )
  flush_undisturbed [] h = refl
  flush_undisturbed (e ∷ es) h = ground (arith, flush_undisturbed es h.1)

  length-take_first :
      (es : List QueueEntry) → OnSome (take_first dst es) (λ r. length r.1 < length es)
  unfolding take_first keep
  length-take_first [] = tt
  length-take_first (e ∷ es) = elim (Bool-cases (has_destination dst e)) [
    | inl here ↦ rw here (omega arith)
    | inr other ↦ elim (Option-cases (take_first dst es)) [
      | inl nothing ↦ rw (other, nothing, keep) tt
      | inr ((x, rest), there) ↦
          let shorter : length rest < length es =
            subst (λ o. OnSome o (λ r. length r.1 < length es)) there (length-take_first es) in
          rw (other, there, keep) (omega arith)
    ]
  ]

  flush-take_first :
      (es : List QueueEntry)
      → flush es ≡ elim (take_first dst es) [
        | none ↦ (es, [])
        | some (e, rest) ↦
            if is_elsewhere node route e.packet.deferred_tag
            then (rest, [])
            else ((flush rest).0, forward route e ∷ (flush rest).1)
      ]
  unfolding take_first keep
  flush-take_first [] = refl
  flush-take_first (e ∷ es) = elim (Bool-cases (has_destination dst e)) [
    | inl here ↦ rw here refl
    | inr other ↦ elim (Option-cases (take_first dst es)) [
      | inl nothing ↦ rw (other, flush-take_first es, nothing, take_first, keep) refl
      | inr ((x, rest), there) ↦ elim (Bool-cases (is_elsewhere node route x.packet.deferred_tag)) [
        | inl lost ↦ rw (other, flush-take_first es, there, take_first, keep, lost) refl
        | inr sent ↦ rw (other, flush-take_first es, there, take_first, keep, sent, other) refl
      ]
    ]
  ]

drop_if-none :
    (p : QueueEntry → Bool) (es : List QueueEntry) → All (λ e. p e ≡ false) es → drop_if p es ≡ []
unfolding drop_if
drop_if-none p [] h = refl
drop_if-none p (e ∷ es) h = ground (arith, drop_if-none p es h.1)

-- The queue's packets that have not run out, and the error calls of the others.
abbrev pub live : Time → RequestQueue → List QueueEntry
live now q = remove_if (is_expired now) q.queue

abbrev pub expired : Time → RequestQueue → List ErrorCall
expired now q = drop_if (is_expired now) q.queue

module _ (node : Node) (now : Time) (dst : ℕ) (route : Ipv4Route) where
  dequeue_lem :
      (q : RequestQueue)
      → dequeue now dst q
        ≡ dequeued (record q { queue = live now q }) (expired now q) (take_first dst (live now q))
  unfolding dequeue purge
  dequeue_lem q = refl

  pub send_loop-flush :
      (fuel : ℕ) (q : RequestQueue)
      → length (live now q) < fuel
      → send_loop fuel node now dst route q
        ≡ some (
          record q { queue = (flush node dst route (live now q)).0 },
          map dropped (expired now q) ++ (flush node dst route (live now q)).1,
        )
  unfolding send_loop dequeued put_before
  send_loop-flush zero q enough = absurd (omega arith)
  send_loop-flush (suc fuel) q enough = elim (Option-cases (take_first dst (live now q))) [
    | inl nothing ↦
        let empty : dequeue now dst q ≡ (record q { queue = live now q }, expired now q, none) =
          dequeue_lem q ∙ rw (nothing, dequeued) refl in
        rw (flush-take_first node dst route (live now q), nothing, send_loop, empty)
          (ap (λ out. some (record q { queue = live now q }, out))
            (sym (append-nil (map dropped (expired now q)))))
    | inr ((e, rest), there) ↦
        let kept =
          subst
            (λ o.
              OnSome o
                (λ r. (is_expired now r.0 ≡ false) × All (λ e. is_expired now e ≡ false) r.1))
            there
            (take_first-All (λ e. is_expired now e ≡ false) dst (live now q)
              (All-remove_if (is_expired now) q.queue)) in
        let shorter : length rest < length (live now q) =
          subst (λ o. OnSome o (λ r. length r.1 < length (live now q))) there
            (length-take_first node dst route (live now q)) in
        let same : live now (record q { queue = rest }) ≡ rest =
          remove_if_id (is_expired now) rest kept.1 in
        let none_expired : expired now (record q { queue = rest }) ≡ [] =
          drop_if-none (is_expired now) rest kept.1 in
        let ih =
          send_loop-flush fuel (record q { queue = rest }) (rw same (omega (arith, shorter))) in
        let taken : dequeue now dst q ≡ (record q { queue = rest }, expired now q, some e) =
          dequeue_lem q ∙ rw (there, dequeued) refl in
        elim (Bool-cases (is_elsewhere node route e.packet.deferred_tag)) [
          | inl lost ↦
              rw (flush-take_first node dst route (live now q), there, send_loop, lost, taken)
                (ap (λ out. some (record q { queue = rest }, out))
                  (sym (append-nil (map dropped (expired now q)))))
          | inr sent ↦
              rw
                (
                  flush-take_first node dst route (live now q),
                  there,
                  send_loop,
                  sent,
                  taken,
                  ih,
                  same,
                  none_expired,
                  put_before,
                  taken,
                )
                (ap (λ out. some (record q { queue = (flush node dst route rest).0 }, out))
                  (append_assoc (map dropped (expired now q)) (forward route e ∷ [])
                    (flush node dst route rest).1))
        ]
  ]

  -- `SendPacketFromQueue` returns: no packet of the queue is visited twice. The packets that have run
  -- out are dropped first; of the others, those for the destination go out in their order with the
  -- route's source, up to the first that was sent to another interface, which is lost; every other
  -- packet stays in the queue.
  pub send_packet_from_queue-flush :
      {D : Type 0} (s : Protocol D)
      → send_packet_from_queue node now dst route s
        ≡ some (
          record s {
            queue = record s.queue { queue = (flush node dst route (live now s.queue)).0 };
          },
          map dropped (expired now s.queue) ++ (flush node dst route (live now s.queue)).1,
        )
  unfolding send_packet_from_queue
  send_packet_from_queue-flush s =
      rw
        (send_loop-flush (suc (length s.queue.queue)) s.queue
          (omega (arith, length-remove_if-le (is_expired now) s.queue.queue)))
        refl

  -- Where no packet for the destination was sent to another interface, all of them that have not run
  -- out go out, in their order, and the queue keeps exactly the packets for other destinations.
  pub send_packet_from_queue_undisturbed :
      {D : Type 0} (s : Protocol D)
      → All
          (λ e. has_destination dst e && is_elsewhere node route e.packet.deferred_tag ≡ false)
          (live now s.queue)
      → send_packet_from_queue node now dst route s
        ≡ some (
          record s {
            queue = record s.queue { queue = remove_if (has_destination dst) (live now s.queue) };
          },
          map dropped (expired now s.queue)
              ++ map
                  (forward route)
                  (remove_if (λ e. not (has_destination dst e)) (live now s.queue)),
        )
  send_packet_from_queue_undisturbed s h =
      send_packet_from_queue-flush s
      ∙ rw (flush_undisturbed node dst route (live now s.queue) h) refl
