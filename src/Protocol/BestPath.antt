-- ===== src/Protocol/BestPath.antt =====
-- The path that `SelectBestPathByMetrics` chooses.
use fp_jaringan_nirkabel.Base.{
  ◌&&◌, ◌≡◌, refl, sym, subst, ap, ◌⊎◌, Bool, true, false, List, [], ◌∷◌, Bool-cases, inl, inr, All,
}
use mathlib.Core.List.{Mem, mem-cons_self, mem-cons_of_mem}
use fp_jaringan_nirkabel.Net.{Time}
use fp_jaringan_nirkabel.Platform.{Platform}
use fp_jaringan_nirkabel.Metrics.{WeightFactors}
use fp_jaringan_nirkabel.Multipath.{PathInfo, default_path, calculate_composite_score}
use fp_jaringan_nirkabel.Protocol.Paths.{best_scored, minus_one, select_best_path_by_metrics}

and_left : (b c : Bool) → b && c ≡ true → b ≡ true
and_left false c h = h
and_left true c h = refl

and_right : (b c : Bool) → b && c ≡ true → c ≡ true
and_right false c h = absurd (cc)
and_right true c h = h

and_false : (b : Bool) {c : Bool} → c ≡ false → b && c ≡ false
and_false false h = refl
and_false true h = h

module _ {D : Type 0} ⦃o : Platform D⦄ (irreflexive : (a : D) → o.lt a a ≡ false)
    (transitive : (a b c : D) → o.lt a b ≡ true → o.lt b c ≡ true → o.lt a c ≡ true) where
  abbrev score : WeightFactors D → PathInfo D → D
  score w p = calculate_composite_score w p

  -- The best so far stays, or an eligible path with a greater score takes its place.
  abbrev Improves :
      WeightFactors D
      → (PathInfo D → Bool)
      → List (PathInfo D)
      → D × PathInfo D
      → D × PathInfo D
      → Type 0
  Improves w eligible paths best r =
      (r ≡ best)
      ⊎ (Mem r.1 paths × (eligible r.1 ≡ true) × (r.0 ≡ score w r.1) × (o.lt best.0 r.0 ≡ true))

  abbrev Best :
      WeightFactors D
      → (PathInfo D → Bool)
      → List (PathInfo D)
      → D × PathInfo D
      → D × PathInfo D
      → Type 0
  Best w eligible paths best r =
      Improves w eligible paths best r × All (λ p. eligible p && o.lt r.0 (score w p) ≡ false) paths

  not_above : (a b c : D) → (b ≡ a) ⊎ (o.lt a b ≡ true) → o.lt a c ≡ false → o.lt b c ≡ false
  not_above a b c (inl same) h = subst (λ x. o.lt x c ≡ false) (sym same) h
  not_above a b c (inr less) h = elim (Bool-cases (o.lt b c)) [
    | inl above ↦ absurd (cc (transitive a b c less above, h))
    | inr below ↦ below
  ]

  taken-Improves :
      (w : WeightFactors D) (eligible : PathInfo D → Bool) (p : PathInfo D) (ps : List (PathInfo D))
      (best r : D × PathInfo D)
      → eligible p ≡ true
      → o.lt best.0 (score w p) ≡ true
      → Improves w eligible ps (score w p, p) r
      → Improves w eligible (p ∷ ps) best r
  taken-Improves w eligible p ps best r e less (inl same) =
      subst (λ x. Improves w eligible (p ∷ ps) best x) (sym same)
        (inr (mem-cons_self, e, refl, less))
  taken-Improves w eligible p ps best r e less (inr (there, e', rated, further)) =
      inr (mem-cons_of_mem p there, e', rated, transitive best.0 (score w p) r.0 less further)

  kept-Improves :
      (w : WeightFactors D) (eligible : PathInfo D → Bool) (p : PathInfo D) (ps : List (PathInfo D))
      (best r : D × PathInfo D)
      → Improves w eligible ps best r
      → Improves w eligible (p ∷ ps) best r
  kept-Improves w eligible p ps best r (inl same) = inl same
  kept-Improves w eligible p ps best r (inr (there, e, rated, less)) =
      inr (mem-cons_of_mem p there, e, rated, less)

  greater :
      (w : WeightFactors D) (eligible : PathInfo D → Bool) (ps : List (PathInfo D))
      (best r : D × PathInfo D)
      → Improves w eligible ps best r
      → (r.0 ≡ best.0) ⊎ (o.lt best.0 r.0 ≡ true)
  greater w eligible ps best r (inl same) = inl (ap (λ x. x.0) same)
  greater w eligible ps best r (inr (there, e, rated, less)) = inr less

  not_better :
      (b : Bool) (a r c : D)
      → (r ≡ a) ⊎ (o.lt a r ≡ true)
      → b && o.lt a c ≡ false
      → b && o.lt r c ≡ false
  not_better false a r c h k = refl
  not_better true a r c h k = not_above a r c h k

  -- The loop over the paths leaves the best so far or an eligible path with a greater score, and no
  -- eligible path has a greater score than what it leaves.
  best_scored-Best :
      (w : WeightFactors D) (eligible : PathInfo D → Bool) (paths : List (PathInfo D))
      (best : D × PathInfo D)
      → Best w eligible paths best (best_scored w eligible paths best)
  unfolding best_scored
  best_scored-Best w eligible [] best = (inl refl, tt)
  best_scored-Best w eligible (p ∷ ps) best =
      elim (Bool-cases (eligible p && o.lt best.0 (score w p))) [
        | inl taken ↦
            let first : D × PathInfo D = (score w p, p) in
            let (improves, all) = best_scored-Best w eligible ps first in
            let r = best_scored w eligible ps first in
            let step : best_scored w eligible (p ∷ ps) best ≡ r = rw taken refl in
            subst (Best w eligible (p ∷ ps) best) (sym step) (
              taken-Improves w eligible p ps best r (and_left (eligible p) _ taken)
                  (and_right (eligible p) _ taken) improves,
              (
                not_better (eligible p) (score w p) r.0 (score w p)
                    (greater w eligible ps first r improves)
                    (and_false (eligible p) (irreflexive (score w p))),
                all,
              ),
            )
        | inr kept ↦
            let (improves, all) = best_scored-Best w eligible ps best in
            let r = best_scored w eligible ps best in
            let step : best_scored w eligible (p ∷ ps) best ≡ r = rw kept refl in
            subst (Best w eligible (p ∷ ps) best) (sym step) (
              kept-Improves w eligible p ps best r improves,
              (
                not_better (eligible p) best.0 r.0 (score w p)
                    (greater w eligible ps best r improves) kept,
                all,
              ),
            )
      ]

  -- The choice is a valid path of the list with a score that is not below 0 and that no valid path's
  -- score is above; or it is the empty path, and the scores of the valid paths are not above a number
  -- that is below 0. The comparison of numbers is irreflexive and transitive, and -1 is below 0.
  pub select_best_path_by_metrics-best :
      (now : Time) (w : WeightFactors D) (paths : List (PathInfo D))
      → o.lt minus_one (o.of_ℕ 0) ≡ true
      → let p = select_best_path_by_metrics now w paths in
        (Mem p paths
          × (p.is_valid ≡ true)
          × (o.lt (calculate_composite_score w p) (o.of_ℕ 0) ≡ false)
          × All
              (λ q.
                q.is_valid && o.lt (calculate_composite_score w p) (calculate_composite_score w q)
                ≡ false)
              paths)
        ⊎ ((p ≡ default_path now)
            × ((b : D) × (o.lt b (o.of_ℕ 0) ≡ true)
                × All (λ q. q.is_valid && o.lt b (calculate_composite_score w q) ≡ false) paths))
  unfolding select_best_path_by_metrics
  select_best_path_by_metrics-best now w paths below =
      let first : D × PathInfo D = (minus_one, default_path now) in
      let r = best_scored w (λ p. p.is_valid) paths first in
      let (improves, all) = best_scored-Best w (λ p. p.is_valid) paths first in
      elim (Bool-cases (o.lt r.0 (o.of_ℕ 0))) [
        | inl negative ↦ rw negative (inr (refl, (r.0, negative, all)))
        | inr enough ↦ elim improves [
          | inl same ↦ absurd (cc (below, enough, ap (λ x. o.lt x.0 (o.of_ℕ 0)) same))
          | inr (there, usable, rated, further) ↦ rw enough (
              inl (
                there,
                usable,
                subst (λ x. o.lt x (o.of_ℕ 0) ≡ false) rated enough,
                subst (λ x. All (λ q. q.is_valid && o.lt x (score w q) ≡ false) paths) rated all,
              ))
        ]
      ]
