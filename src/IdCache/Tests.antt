-- ===== src/IdCache/Tests.antt =====
-- Runs of the id cache at concrete times.
use fp_jaringan_nirkabel.Base.{
  ◌≡◌, ◌≤◌, ◌+◌, refl, true, false, List, [], ◌∷◌, pos, ◌+ℤ◌, any, length, All, arith,
}
use fp_jaringan_nirkabel.IdCache.{init, is_expired, is_entry, is_duplicate}
use fp_jaringan_nirkabel.IdCache.Recall.{Call, run, reference, run-reference, is_duplicate-bounds}

-- Lifetime 5: the second call repeats the first, the fourth comes after it has expired.
abbrev calls : List Call
calls =
    record { time = pos 1; addr = 7; id = 3 }
    ∷ record { time = pos 4; addr = 7; id = 3 }
    ∷ record { time = pos 5; addr = 8; id = 3 }
    ∷ record { time = pos 7; addr = 7; id = 3 }
    ∷ []

run-calls : run (init (pos 5)) calls ≡ false ∷ true ∷ false ∷ false ∷ []
unfolding run init is_duplicate ◌+ℤ◌
run-calls = refl

run-reference_example : run (init (pos 5)) calls ≡ reference (pos 5) [] calls
run-reference_example = run-reference (pos 5) (pos 0) calls (omega arith)

one_record_more :
    let c' = (is_duplicate (pos 4) 7 3 (init (pos 5))).0 in
    (length c'.id_cache ≤ length (init (pos 5)).id_cache + 1)
    × (any (is_entry 7 3) c'.id_cache ≡ true)
    × All (λ u. is_expired (pos 4) u ≡ false) c'.id_cache
unfolding init
one_record_more = is_duplicate-bounds (pos 4) 7 3 (init (pos 5)) (omega arith)
