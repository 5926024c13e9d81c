-- ===== src/RequestQueue.antt =====
-- aodv-rqueue.h and aodv-rqueue.cc. An operation returns the packets that it hands to their error
-- callbacks, in order, beside the new queue; `Simulator::Now()` is an argument.
pub mod Bounds
pub mod Contents
mod Tests
use fp_jaringan_nirkabel.Base.{
  ℕ, ◌==◌, ◌&&◌, Bool, true, false, Option, none, some, List, [], ◌∷◌, ◌++◌, if◌then◌else◌, pos,
  ◌+ℤ◌, ◌-ℤ◌, ltb_ℤ, remove_if, any, length,
}
use fp_jaringan_nirkabel.Net.{Time, Packet, Ipv4Header}

-- A callback is known by a number.
pub record QueueEntry : Type 0 where
  pub packet : Packet
  pub header : Ipv4Header
  pub ucb : ℕ
  pub ecb : ℕ
  pub expire : Time

-- The constructor's lifetime counts from now.
unfoldable pub queue_entry : Time → Packet → Ipv4Header → ℕ → ℕ → Time → QueueEntry
queue_entry now p h ucb ecb exp = record {
  packet = p;
  header = h;
  ucb = ucb;
  ecb = ecb;
  expire = exp +ℤ now;
}

unfoldable pub set_expire_time : Time → Time → QueueEntry → QueueEntry
set_expire_time now exp e = record e { expire = exp +ℤ now }

unfoldable pub get_expire_time : Time → QueueEntry → Time
get_expire_time now e = e.expire -ℤ now

pub record RequestQueue : Type 0 where
  pub queue : List QueueEntry
  pub max_len : ℕ
  pub queue_timeout : Time

unfoldable pub init : ℕ → Time → RequestQueue
init max_len timeout = record { queue = []; max_len = max_len; queue_timeout = timeout }

-- A call of an error callback, always with `ERROR_NOROUTETOHOST`.
pub record ErrorCall : Type 0 where
  pub callback : ℕ
  pub packet : Packet
  pub header : Ipv4Header

unfoldable pub drop : QueueEntry → ErrorCall
drop e = record { callback = e.ecb; packet = e.packet; header = e.header }

-- The loop that drops each entry that passes a test.
unfoldable pub drop_if : (QueueEntry → Bool) → List QueueEntry → List ErrorCall
drop_if p [] = []
drop_if p (e ∷ es) = let rest = drop_if p es in if p e then drop e ∷ rest else rest

unfoldable pub is_expired : Time → QueueEntry → Bool
unfolding get_expire_time
is_expired now e = ltb_ℤ (get_expire_time now e) (pos 0)

unfoldable pub purge : Time → RequestQueue → RequestQueue × List ErrorCall
purge now q =
    (record q { queue = remove_if (is_expired now) q.queue }, drop_if (is_expired now) q.queue)

unfoldable pub get_size : Time → RequestQueue → RequestQueue × List ErrorCall × ℕ
unfolding purge
get_size now q = let (q', dropped) = purge now q in (q', dropped, length q'.queue)

-- The test of the loop in `Enqueue`: the packet's uid and the destination are those of `e`.
unfoldable pub is_same : QueueEntry → QueueEntry → Bool
is_same e i = i.packet.uid == e.packet.uid && i.header.destination == e.header.destination

unfoldable pub has_destination : ℕ → QueueEntry → Bool
has_destination dst e = e.header.destination == dst

-- Makes room for one entry if the queue is full: `none` is `front()` of an empty vector.
unfoldable pub make_room : ℕ → List QueueEntry → Option (List QueueEntry × List ErrorCall)
make_room max_len [] = if 0 == max_len then none else some ([], [])
make_room max_len (e ∷ es) =
    if length (e ∷ es) == max_len then some (es, drop e ∷ []) else some (e ∷ es, [])

-- The end of `Enqueue`, with the room that was made.
unfoldable pub push_back :
    Time
    → QueueEntry
    → RequestQueue
    → List ErrorCall
    → Option (List QueueEntry × List ErrorCall)
    → Option (RequestQueue × List ErrorCall × Bool)
push_back now entry q dropped none = none
push_back now entry q dropped (some (es, oldest)) = some (
  record q { queue = es ++ set_expire_time now q.queue_timeout entry ∷ [] },
  dropped ++ oldest,
  true,
)

unfoldable pub enqueue :
    Time → QueueEntry → RequestQueue → Option (RequestQueue × List ErrorCall × Bool)
unfolding purge
enqueue now entry q =
    let (q', dropped) = purge now q in
    if any (is_same entry) q'.queue
    then some (q', dropped, false)
    else push_back now entry q' dropped (make_room q'.max_len q'.queue)

unfoldable pub drop_packet_with_dst : Time → ℕ → RequestQueue → RequestQueue × List ErrorCall
unfolding purge
drop_packet_with_dst now dst q =
    let (q', dropped) = purge now q in
    (
      record q' { queue = remove_if (has_destination dst) q'.queue },
      dropped ++ drop_if (has_destination dst) q'.queue,
    )

unfoldable pub keep :
    QueueEntry → Option (QueueEntry × List QueueEntry) → Option (QueueEntry × List QueueEntry)
keep e none = none
keep e (some (found, rest)) = some (found, e ∷ rest)

-- The first entry for the destination, and the queue without it.
unfoldable pub take_first : ℕ → List QueueEntry → Option (QueueEntry × List QueueEntry)
unfolding keep
take_first dst [] = none
take_first dst (e ∷ es) = if has_destination dst e then some (e, es) else keep e (take_first dst es)

unfoldable pub dequeued :
    RequestQueue
    → List ErrorCall
    → Option (QueueEntry × List QueueEntry)
    → RequestQueue × List ErrorCall × Option QueueEntry
dequeued q dropped none = (q, dropped, none)
dequeued q dropped (some (entry, rest)) = (record q { queue = rest }, dropped, some entry)

unfoldable pub dequeue : Time → ℕ → RequestQueue → RequestQueue × List ErrorCall × Option QueueEntry
unfolding purge take_first dequeued
dequeue now dst q = let (q', dropped) = purge now q in dequeued q' dropped (take_first dst q'.queue)

unfoldable pub find : ℕ → RequestQueue → Bool
find dst q = any (has_destination dst) q.queue

unfoldable pub set_max_queue_len : ℕ → RequestQueue → RequestQueue
set_max_queue_len len q = record q { max_len = len }

unfoldable pub set_queue_timeout : Time → RequestQueue → RequestQueue
set_queue_timeout t q = record q { queue_timeout = t }
