-- ===== src/Neighbors/Tests.antt =====
-- Runs of the neighbour list at concrete times.
use fp_jaringan_nirkabel.Base.{
  ℕ, map, ◌≡◌, ◌==◌, ◌&&◌, ◌||◌, not, refl, true, false, some, none, [], ◌∷◌, any, if◌then◌else◌,
  remove_if, pos, ◌+ℤ◌, ◌≤ℤ◌, arith,
}
use fp_jaringan_nirkabel.Neighbors.{
  Neighbor, Neighbors, ArpView, is_closed, is_neighbor, update, process_tx_error,
}
use fp_jaringan_nirkabel.Neighbors.Links.{
  lost, was_closed, link_to, lost_links, is_neighbor_lem, link-update, process_tx_error_lem,
}

abbrev link : ℕ → ℕ → ℕ → Neighbor
link addr mac expire = record {
  neighbor_address = addr;
  hardware_address = mac;
  expire_time = pos expire;
  close = false;
}

abbrev three : Neighbors
three = record {
  nb = link 1 11 5 ∷ link 2 12 20 ∷ link 3 13 30 ∷ [];
  arp = [];
  delay = pos 1;
  timer = none;
  has_callback = true;
}

abbrev silent : ArpView
silent = record { lookup = λ cache addr. none; no_mac = 0 }

process_tx_error-three :
    process_tx_error (pos 10) 13 three
    ≡ (record three { nb = link 2 12 20 ∷ []; timer = some (pos 11) }, 1 ∷ 3 ∷ [])
unfolding process_tx_error ◌+ℤ◌
process_tx_error-three = refl

is_neighbor_lem_example :
    let (n', failures, found) = is_neighbor (pos 10) 2 three in
    (found ≡ any (λ nb. not (lost (pos 10) nb) && nb.neighbor_address == 2) three.nb)
    × (n'.nb ≡ remove_if (lost (pos 10)) three.nb)
    × (failures ≡ (
        if three.has_callback
        then map (λ nb. nb.neighbor_address) (remove_if (λ nb. not (lost (pos 10) nb)) three.nb)
        else []))
is_neighbor_lem_example = is_neighbor_lem (pos 10) 2 three

link-update_example :
    (nb : Neighbor) × (link_to 4 (update silent (pos 10) 4 (pos 7) three).0.nb ≡ some nb)
    × (pos 10 +ℤ pos 7 ≤ℤ nb.expire_time)
    × (nb.close ≡ was_closed (link_to 4 three.nb))
link-update_example = link-update silent (pos 10) 4 (pos 7) three (omega arith)

process_tx_error_lem_example :
    let (n', failures) = process_tx_error (pos 10) 13 three in
    (n'.nb ≡ remove_if (λ nb. is_closed (pos 10) nb || nb.hardware_address == 13) three.nb)
    × (failures ≡ (if three.has_callback then lost_links (pos 10) 13 three.nb else []))
process_tx_error_lem_example = process_tx_error_lem (pos 10) 13 three
