-- ===== src/Neighbors/Links.antt =====
-- Which links are open, and which are reported as broken.
use fp_jaringan_nirkabel.Base.{
  ℕ, Bool, none, map, ltb_ℤ, ◌≡◌, ◌==◌, ◌&&◌, ◌||◌, not, refl, true, false, Option, some, List, [],
  ◌∷◌, ◌++◌, any, arith, if◌then◌else◌, remove_if, Bool-cases, inl, inr, ◌∙◌, ap, any-remove_if,
  ◌+ℤ◌, ◌≤ℤ◌, pos, find_if, +ℤ_parts, ==_refl,
}
use fp_jaringan_nirkabel.Net.{Time}
use fp_jaringan_nirkabel.Neighbors.{
  Neighbor, Neighbors, ArpView, is_closed, has_address, closed_links, purge, is_neighbor, extend,
  extend_first, update, new_neighbor, lookup_mac_address, close_links, close_link, process_tx_error,
  is_no_neighbor, schedule_timer,
}

nb-purge : (now : Time) (n : Neighbors) → (purge now n).0.nb ≡ remove_if (is_closed now) n.nb
unfolding purge is_no_neighbor schedule_timer
nb-purge now n = ground arith

failures-purge :
    (now : Time) (n : Neighbors)
    → (purge now n).1 ≡ (if n.has_callback then closed_links now n.nb else [])
unfolding purge is_no_neighbor closed_links
failures-purge now n = ground arith

-- The link was closed or has expired.
abbrev pub lost : Time → Neighbor → Bool
lost now nb = ltb_ℤ nb.expire_time now || nb.close

closed_links_lem :
    (now : Time) (nbs : List Neighbor)
    → closed_links now nbs
      ≡ map (λ nb. nb.neighbor_address) (remove_if (λ nb. not (lost now nb)) nbs)
unfolding closed_links is_closed
closed_links_lem now [] = refl
closed_links_lem now (nb ∷ nbs) = ground (arith, closed_links_lem now nbs)

-- `IsNeighbor` holds exactly if there is a link to the address that is not closed and has not
-- expired. Afterwards exactly such links are left, and the addresses of all other links were handed
-- to the callback, if one is set, each once and in order.
pub is_neighbor_lem :
    (now : Time) (addr : ℕ) (n : Neighbors)
    → let (n', failures, found) = is_neighbor now addr n in
      (found ≡ any (λ nb. not (lost now nb) && nb.neighbor_address == addr) n.nb)
      × (n'.nb ≡ remove_if (lost now) n.nb)
      × (failures ≡ (
          if n.has_callback
          then map (λ nb. nb.neighbor_address) (remove_if (λ nb. not (lost now nb)) n.nb)
          else []))
unfolding is_neighbor is_closed has_address
is_neighbor_lem now addr n = (
  ap (any (has_address addr)) (nb-purge now n)
      ∙ any-remove_if (is_closed now) (has_address addr) n.nb,
  nb-purge now n,
  failures-purge now n ∙ ap (λ l. if n.has_callback then l else []) (closed_links_lem now n.nb),
)

abbrev pub link_to : ℕ → List Neighbor → Option Neighbor
link_to addr = find_if (has_address addr)

has_address-extend :
    (view : ArpView) (now : Time) (addr : ℕ) (expire : Time) (caches : List ℕ) (nb : Neighbor)
    → has_address addr (extend view now expire caches nb) ≡ has_address addr nb
unfolding extend has_address
has_address-extend view now addr expire caches nb = refl

expire_time-extend :
    (view : ArpView) (now expire : Time) (caches : List ℕ) (nb : Neighbor)
    → now +ℤ expire ≤ℤ (extend view now expire caches nb).expire_time
unfolding extend
expire_time-extend view now expire caches nb =
    ground (arith, +ℤ_parts now expire, +ℤ_parts expire now)

abbrev pub was_closed : Option Neighbor → Bool
was_closed none = false
was_closed (some nb) = nb.close

close-extend :
    (view : ArpView) (now expire : Time) (caches : List ℕ) (nb : Neighbor)
    → (extend view now expire caches nb).close ≡ nb.close
unfolding extend
close-extend view now expire caches nb = refl

link-extend_first :
    (view : ArpView) (now : Time) (addr : ℕ) (expire : Time) (caches : List ℕ) (nbs : List Neighbor)
    → any (has_address addr) nbs ≡ true
    → (nb : Neighbor) × (link_to addr (extend_first view now addr expire caches nbs) ≡ some nb)
      × (now +ℤ expire ≤ℤ nb.expire_time)
      × (nb.close ≡ was_closed (link_to addr nbs))
unfolding extend_first
link-extend_first view now addr expire caches [] h = absurd (cc)
link-extend_first view now addr expire caches (nb ∷ nbs) h =
    elim (Bool-cases (has_address addr nb)) [
      | inl hit ↦ (
        extend view now expire caches nb,
        rw hit (rw (has_address-extend view now addr expire caches nb ∙ hit)),
        expire_time-extend view now expire caches nb,
        rw hit (close-extend view now expire caches nb),
      )
      | inr miss ↦
          let (x, there, later, same) =
            link-extend_first view now addr expire caches nbs (ground arith) in
          (x, rw miss (rw miss there), later, rw miss same)
    ]

is_closed-new_neighbor :
    (now : Time) (addr mac : ℕ) (expire : Time)
    → pos 0 ≤ℤ expire
    → is_closed now (new_neighbor addr mac (expire +ℤ now)) ≡ false
unfolding is_closed new_neighbor
is_closed-new_neighbor now addr mac expire h = ground (arith, +ℤ_parts expire now)

opened_lem :
    (now : Time) (nbs : List Neighbor) (nb : Neighbor)
    → any (has_address nb.neighbor_address) nbs ≡ false
    → is_closed now nb ≡ false
    → link_to nb.neighbor_address (remove_if (is_closed now) (nbs ++ nb ∷ [])) ≡ some nb
unfolding has_address
opened_lem now [] nb h c = ground (arith, ==_refl nb.neighbor_address)
opened_lem now (i ∷ nbs) nb h c = ground (arith, opened_lem now nbs nb)

no_link :
    (addr : ℕ) (nbs : List Neighbor) → any (has_address addr) nbs ≡ false → link_to addr nbs ≡ none
no_link addr [] h = refl
no_link addr (nb ∷ nbs) h = ground (arith, no_link addr nbs)

close-new_neighbor : (addr mac : ℕ) (t : Time) → (new_neighbor addr mac t).close ≡ false
unfolding new_neighbor
close-new_neighbor addr mac t = refl

-- After `Update` with a time that is not negative there is a link to the address, and the first one
-- expires no earlier than that time from now. A new link is open; one that was there before stays
-- closed if it was closed.
pub link-update :
    (view : ArpView) (now : Time) (addr : ℕ) (expire : Time) (n : Neighbors)
    → pos 0 ≤ℤ expire
    → (nb : Neighbor) × (link_to addr (update view now addr expire n).0.nb ≡ some nb)
      × (now +ℤ expire ≤ℤ nb.expire_time)
      × (nb.close ≡ was_closed (link_to addr n.nb))
unfolding update
link-update view now addr expire n h = elim (Bool-cases (any (has_address addr) n.nb)) [
  | inl old ↦ rw old (link-extend_first view now addr expire n.arp n.nb old)
  | inr new ↦
      let nb = new_neighbor addr (lookup_mac_address view addr n) (expire +ℤ now) in
      rw new (
        nb,
        ap (link_to addr) (nb-purge now (record n { nb = n.nb ++ nb ∷ [] }))
            ∙ opened_lem now n.nb nb new
                (is_closed-new_neighbor now addr (lookup_mac_address view addr n) expire h),
        omega (arith, +ℤ_parts now expire, +ℤ_parts expire now),
        rw (no_link addr n.nb new)
            (close-new_neighbor addr (lookup_mac_address view addr n) (expire +ℤ now)),
      )
]

tx_error_nb :
    (now : Time) (mac : ℕ) (nbs : List Neighbor)
    → remove_if (is_closed now) (close_links mac nbs)
      ≡ remove_if (λ nb. is_closed now nb || nb.hardware_address == mac) nbs
unfolding close_links close_link is_closed
tx_error_nb now mac [] = refl
tx_error_nb now mac (nb ∷ nbs) = ground (arith, tx_error_nb now mac nbs)

-- The links that are closed or go to a hardware address, in order.
unfoldable pub lost_links : Time → ℕ → List Neighbor → List ℕ
lost_links now mac [] = []
lost_links now mac (nb ∷ nbs) =
    let rest = lost_links now mac nbs in
    if is_closed now nb || nb.hardware_address == mac then nb.neighbor_address ∷ rest else rest

tx_error_failures :
    (now : Time) (mac : ℕ) (nbs : List Neighbor)
    → closed_links now (close_links mac nbs) ≡ lost_links now mac nbs
unfolding close_links close_link is_closed closed_links lost_links
tx_error_failures now mac [] = refl
tx_error_failures now mac (nb ∷ nbs) = ground (arith, tx_error_failures now mac nbs)

-- A transmission error removes exactly the links to the frame's hardware address, besides those
-- that were closed or expired, and hands each removed link to the callback, if one is set.
pub process_tx_error_lem :
    (now : Time) (mac : ℕ) (n : Neighbors)
    → let (n', failures) = process_tx_error now mac n in
      (n'.nb ≡ remove_if (λ nb. is_closed now nb || nb.hardware_address == mac) n.nb)
      × (failures ≡ (if n.has_callback then lost_links now mac n.nb else []))
unfolding process_tx_error
process_tx_error_lem now mac n = (
  nb-purge now (record n { nb = close_links mac n.nb }) ∙ tx_error_nb now mac n.nb,
  failures-purge now (record n { nb = close_links mac n.nb })
      ∙ ap (λ l. if n.has_callback then l else []) (tx_error_failures now mac n.nb),
)
