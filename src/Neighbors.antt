-- ===== src/Neighbors.antt =====
-- aodv-neighbor.h and aodv-neighbor.cc: the links to the nodes that are heard directly. A call
-- returns the addresses that it hands to the link failure callback, in order. The clock and what the
-- ARP caches hold at the time of the call are arguments.
pub mod Links
mod Tests
use fp_jaringan_nirkabel.Base.{
  ℕ, ◌==◌, ◌&&◌, ◌||◌, not, Bool, true, false, Option, none, some, List, [], ◌∷◌, ◌++◌,
  if◌then◌else◌, pos, ◌+ℤ◌, ◌-ℤ◌, ltb_ℤ, max_ℤ, remove_if, any,
}
use fp_jaringan_nirkabel.Net.{Time}

pub record Neighbor : Type 0 where
  pub neighbor_address : ℕ
  pub hardware_address : ℕ
  pub expire_time : Time
  pub close : Bool

-- `timer` is the time at which `m_ntimer` is to call `Purge`; an ARP cache is known by a number.
pub record Neighbors : Type 0 where
  pub nb : List Neighbor
  pub arp : List ℕ
  pub delay : Time
  pub timer : Option Time
  pub has_callback : Bool

-- An entry of an ARP cache, and what the caches answer at a time, with the address that
-- `Mac48Address()` holds.
pub record ArpEntry : Type 0 where
  pub is_alive : Bool
  pub is_permanent : Bool
  pub is_expired : Bool
  pub mac_address : ℕ

pub record ArpView : Type 0 where
  pub lookup : ℕ → ℕ → Option ArpEntry
  pub no_mac : ℕ

unfoldable pub init : Time → Neighbors
init delay = record { nb = []; arp = []; delay = delay; timer = none; has_callback = false }

unfoldable pub new_neighbor : ℕ → ℕ → Time → Neighbor
new_neighbor ip mac t = record {
  neighbor_address = ip;
  hardware_address = mac;
  expire_time = t;
  close = false;
}

unfoldable pub is_usable : Option ArpEntry → Bool
is_usable none = false
is_usable (some e) = (e.is_alive || e.is_permanent) && not e.is_expired

unfoldable pub mac_of : ArpView → Option ArpEntry → ℕ
mac_of view none = view.no_mac
mac_of view (some e) = e.mac_address

-- The first usable entry of the caches, in their order.
unfoldable pub lookup_in : ArpView → ℕ → List ℕ → ℕ
unfolding is_usable mac_of
lookup_in view addr [] = view.no_mac
lookup_in view addr (cache ∷ caches) =
    let entry = view.lookup cache addr in
    if is_usable entry then mac_of view entry else lookup_in view addr caches

unfoldable pub lookup_mac_address : ArpView → ℕ → Neighbors → ℕ
unfolding lookup_in
lookup_mac_address view addr n = lookup_in view addr n.arp

-- `CloseNeighbor`
unfoldable pub is_closed : Time → Neighbor → Bool
is_closed now nb = ltb_ℤ nb.expire_time now || nb.close

unfoldable pub has_address : ℕ → Neighbor → Bool
has_address addr nb = nb.neighbor_address == addr

unfoldable pub is_no_neighbor : List Neighbor → Bool
is_no_neighbor [] = true
is_no_neighbor (nb ∷ nbs) = false

unfoldable pub schedule_timer : Time → Neighbors → Neighbors
schedule_timer now n = record n { timer = some (now +ℤ n.delay) }

-- The loop that reports each closed link.
unfoldable pub closed_links : Time → List Neighbor → List ℕ
unfolding is_closed
closed_links now [] = []
closed_links now (nb ∷ nbs) =
    let rest = closed_links now nbs in if is_closed now nb then nb.neighbor_address ∷ rest else rest

unfoldable pub purge : Time → Neighbors → Neighbors × List ℕ
unfolding closed_links is_closed is_no_neighbor schedule_timer
purge now n = if is_no_neighbor n.nb then (n, []) else (
  schedule_timer now (record n { nb = remove_if (is_closed now) n.nb }),
  if n.has_callback then closed_links now n.nb else [],
)

unfoldable pub is_neighbor : Time → ℕ → Neighbors → Neighbors × List ℕ × Bool
unfolding purge has_address
is_neighbor now addr n =
    let (n', failures) = purge now n in (n', failures, any (has_address addr) n'.nb)

unfoldable pub first_expire_time : Time → ℕ → List Neighbor → Time
unfolding has_address
first_expire_time now addr [] = pos 0
first_expire_time now addr (nb ∷ nbs) =
    if has_address addr nb then nb.expire_time -ℤ now else first_expire_time now addr nbs

unfoldable pub get_expire_time : Time → ℕ → Neighbors → Neighbors × List ℕ × Time
unfolding purge first_expire_time
get_expire_time now addr n =
    let (n', failures) = purge now n in (n', failures, first_expire_time now addr n'.nb)

-- The body of the loop in `Update`, for the neighbour that it finds.
unfoldable pub extend : ArpView → Time → Time → List ℕ → Neighbor → Neighbor
unfolding lookup_in
extend view now expire caches nb = record nb {
  expire_time = max_ℤ (expire +ℤ now) nb.expire_time;
  hardware_address =
      if nb.hardware_address == view.no_mac
      then lookup_in view nb.neighbor_address caches
      else nb.hardware_address;
}

unfoldable pub extend_first : ArpView → Time → ℕ → Time → List ℕ → List Neighbor → List Neighbor
unfolding extend
extend_first view now addr expire caches [] = []
extend_first view now addr expire caches (nb ∷ nbs) =
    if has_address addr nb
    then extend view now expire caches nb ∷ nbs
    else nb ∷ extend_first view now addr expire caches nbs

unfoldable pub update : ArpView → Time → ℕ → Time → Neighbors → Neighbors × List ℕ
unfolding extend_first lookup_mac_address new_neighbor purge
update view now addr expire n =
    if any (has_address addr) n.nb
    then (record n { nb = extend_first view now addr expire n.arp n.nb }, [])
    else let opened = new_neighbor addr (lookup_mac_address view addr n) (expire +ℤ now) in
      purge now (record n { nb = n.nb ++ opened ∷ [] })

unfoldable pub clear : Neighbors → Neighbors
clear n = record n { nb = [] }

unfoldable pub add_arp_cache : ℕ → Neighbors → Neighbors
add_arp_cache a n = record n { arp = n.arp ++ a ∷ [] }

unfoldable pub del_arp_cache : ℕ → Neighbors → Neighbors
del_arp_cache a n = record n { arp = remove_if (λ b. b == a) n.arp }

unfoldable pub set_callback : Bool → Neighbors → Neighbors
set_callback present n = record n { has_callback = present }

unfoldable pub close_link : ℕ → Neighbor → Neighbor
close_link mac nb = if nb.hardware_address == mac then record nb { close = true } else nb

unfoldable pub close_links : ℕ → List Neighbor → List Neighbor
unfolding close_link
close_links mac [] = []
close_links mac (nb ∷ nbs) = close_link mac nb ∷ close_links mac nbs

-- `ProcessTxError` for a frame to the hardware address `mac`.
unfoldable pub process_tx_error : Time → ℕ → Neighbors → Neighbors × List ℕ
unfolding close_links purge
process_tx_error now mac n = purge now (record n { nb = close_links mac n.nb })
