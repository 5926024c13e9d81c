-- ===== src/Multipath/Selection.antt =====
-- Which path `GetBestPath` selects.
use mathlib.Core.List.{Mem, mem-cons_self, mem-cons_of_mem}
use fp_jaringan_nirkabel.Base.{
  ℕ, ◌≡◌, ◌≤◌, ◌⊎◌, ltb, refl, sym, ◌∙◌, subst, List, [], ◌∷◌, map, All, arith, if◌then◌else◌,
  Bool-cases, inl, inr,
}
use fp_jaringan_nirkabel.Net.{Time}
use fp_jaringan_nirkabel.Platform.{Platform}
use fp_jaringan_nirkabel.Metrics.{default_factors}
use fp_jaringan_nirkabel.Multipath.{
  PathInfo, MultipathRouteEntry, default_path, min_element, rate, best_of, get_best_path,
  live_paths,
}

All-weaken :
    {D : Type 0} (m n : ℕ) (ps : List (PathInfo D))
    → m ≤ n
    → All (λ p. n ≤ p.hop_count) ps
    → All (λ p. m ≤ p.hop_count) ps
All-weaken m n [] h a = tt
All-weaken m n (p ∷ ps) h a = (omega arith, All-weaken m n ps h a.1)

module _ {D : Type 0} ⦃o : Platform D⦄ where
  min_element-le :
      (best : PathInfo D) (ps : List (PathInfo D))
      → ((min_element best ps).hop_count ≤ best.hop_count)
        × All (λ p. (min_element best ps).hop_count ≤ p.hop_count) ps
  unfolding min_element
  min_element-le best [] = (omega arith, tt)
  min_element-le best (p ∷ ps) =
      let next = if ltb p.hop_count best.hop_count then p else best in
      let ih = min_element-le next ps in
      let le_best : next.hop_count ≤ best.hop_count = ground arith in
      let le_p : next.hop_count ≤ p.hop_count = ground arith in
      (omega (arith, ih.0, le_best), (omega (arith, ih.0, le_p), ih.1))

  min_element-mem :
      (best : PathInfo D) (ps : List (PathInfo D))
      → (min_element best ps ≡ best) ⊎ Mem (min_element best ps) ps
  unfolding min_element
  min_element-mem best [] = inl refl
  min_element-mem best (p ∷ ps) =
      let next = if ltb p.hop_count best.hop_count then p else best in
      elim (min_element-mem next ps) [
        | inl e ↦ elim (Bool-cases (ltb p.hop_count best.hop_count)) [
          | inl less ↦ inr (subst (λ q. Mem q (p ∷ ps)) (sym (e ∙ rw less)) mem-cons_self)
          | inr more ↦ inl (e ∙ rw more)
        ]
        | inr m ↦ inr (mem-cons_of_mem p m)
      ]

  best_of-least :
      (now : Time) (ps : List (PathInfo D))
      → ((ps ≡ []) × (best_of now ps ≡ default_path now))
        ⊎ (Mem (best_of now ps) ps × All (λ p. (best_of now ps).hop_count ≤ p.hop_count) ps)
  unfolding best_of
  best_of-least now [] = inl (refl, refl)
  best_of-least now (p ∷ ps) = inr (elim (min_element-mem p ps) [
    | inl e ↦ (subst (λ q. Mem q (p ∷ ps)) (sym e) mem-cons_self, min_element-le p ps)
    | inr m ↦ (mem-cons_of_mem p m, min_element-le p ps)
  ])

  -- `GetBestPath` returns a path of the entry with the least hop count, whatever the scores that it
  -- computes, or the invalid path if no path is left; and the entry keeps exactly the paths that had
  -- not expired, in order, changed in nothing but their scores.
  pub get_best_path-least :
      (now : Time) (e : MultipathRouteEntry D)
      → let (e', best) = get_best_path now e in
        (((e'.paths ≡ []) × (best ≡ default_path now))
          ⊎ (Mem best e'.paths × All (λ p. best.hop_count ≤ p.hop_count) e'.paths))
        × (e'.paths ≡ map (rate default_factors) (live_paths now e).paths)
        × (e'.destination ≡ e.destination)
  unfolding get_best_path
  get_best_path-least now e =
      (best_of-least now (map (rate default_factors) (live_paths now e).paths), refl, refl)
