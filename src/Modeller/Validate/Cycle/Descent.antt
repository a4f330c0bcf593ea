-- ===== src/Modeller/Validate/Cycle/Descent.antt =====
-- The recursion and the loop over the steps in `checkGraphCycle` of
-- workflow-modeller/src/domain/validate.ts.
use mathlib.Core.Path.{subst}
use rochallor_engine.Base.{
  ℕ, zero, suc, ◌≤◌, true, some, List, [], ◌∷◌, ◌≡◌, ◌≢◌, ◌⊎◌, inl, inr, refl, arith, lookup,
  lookup-insert, is_some, contains, ◌==◌, ==_iff, ==_refl, Bool-cases, sym, map,
}
use rochallor_engine.Modeller.Types.{StepId, Step}
use rochallor_engine.Modeller.Validate.Refs.{Index}
use rochallor_engine.Modeller.Validate.Cycle.{
  white, gray, black, Search, paint, scan, targets_of, dfs, search_all,
}
use rochallor_engine.Modeller.Validate.Cycle.Trails.{Leads}
use rochallor_engine.Modeller.Validate.Cycle.Colors.{whites, whites-gray}
use rochallor_engine.Modeller.Validate.Cycle.Scan.{
  with_cycle, color_of, unknown, is_gray, is_white, is_black, Seen-cases, IsFound, IsFine, IsClean,
  IsClean-refl, IsClean-trans, Visits, Rests, scan-visits,
}

module _ (index : Index) where
  dfs-Rests : (fuel : ℕ) → Rests index (dfs index fuel)
  unfolding dfs
  dfs-Rests zero id s h = refl
  dfs-Rests (suc fuel) id s (last, rest, e, cycle) =
      subst (λ l. dfs index (suc fuel) id (with_cycle s l) ≡ with_cycle s l) (sym e) refl

  gray-IsFine : (id : StepId) (s : Search) → IsFine index s → IsFine index (paint id gray s)
  unfolding paint
  gray-IsFine id s h = record {
    quiet = h.quiet;
    blacks = λ u e. h.blacks u (ground (arith, lookup-insert id u gray s.color));
    colored = λ u e. ground (arith, h.colored u e, lookup-insert id u gray s.color);
  }

  -- The colours behind a call that painted `id` gray and black.
  IsClean-call :
      (id : StepId) (s t : Search)
      → color_of s id ≡ some white
      → IsClean index (paint id gray s) t
      → color_of t id ≡ some black
      → IsClean index s t
  unfolding paint
  IsClean-call id s t unvisited clean black_id = record {
    fine = clean.fine;
    grays = λ u e. elim (Bool-cases (id == u)) [
      | inl same ↦ let e' : color_of t id ≡ some gray = rw ((==_iff id u).0 same) e in cc
      | inr other ↦ ground (arith, clean.grays u e, lookup-insert id u gray s.color)
    ];
    kept = λ u e. elim (Bool-cases (id == u)) [
      | inl same ↦ let e' : color_of s id ≡ some black = rw ((==_iff id u).0 same) e in cc
      | inr other ↦ clean.kept u (ground (arith, lookup-insert id u gray s.color))
    ];
    fewer = omega (arith, clean.fewer, whites-gray id s.color unvisited);
  }

  dfs_quiet :
      (fuel : ℕ) (id : StepId) (s : Search)
      → s.on_cycle ≡ []
      → dfs index (suc fuel) id s
        ≡ scan (dfs index fuel) id (targets_of (lookup id index)) (paint id gray s)
  unfolding dfs
  dfs_quiet fuel id s e =
      subst
        (λ l.
          dfs index (suc fuel) id (with_cycle s l)
          ≡ scan (dfs index fuel) id (targets_of (lookup id index))
              (paint id gray (with_cycle s l)))
        (sym e) refl

  dfs-Visits : (fuel : ℕ) → Visits index fuel (dfs index fuel)
  unfolding paint
  dfs-Visits zero id s fine unvisited few leads =
      absurd (omega (arith, few, whites-gray id s.color unvisited))
  dfs-Visits (suc fuel) id s fine unvisited few leads =
      let gray_leads : (g : StepId) → color_of (paint id gray s) g ≡ some gray → Leads index g id =
        λ g e. elim (Bool-cases (id == g)) [
          | inl same ↦ inl (sym ((==_iff id g).0 same))
          | inr other ↦ leads g (ground (arith, lookup-insert id g gray s.color))
        ] in
      let result =
        scan-visits index fuel (dfs index fuel) (dfs-Visits fuel) (dfs-Rests fuel) id
          (targets_of (lookup id index)) (paint id gray s) (gray-IsFine id s fine)
          (omega (arith, few, whites-gray id s.color unvisited)) gray_leads (λ v h. h)
          (λ v e. inr e) in
      rw (dfs_quiet fuel id s fine.quiet) (elim result [
        | inl cycle ↦ inl cycle
        | inr (clean, black_id) ↦ inr (IsClean-call id s _ unvisited clean black_id, black_id)
      ])

  -- The loop over the steps.
  abbrev pub IsDone : List Step → Search → Search → Type 0
  IsDone steps s s' =
      IsClean index s s'
      × ((u : StepId)
          → contains (map (λ (t : Step). t.id) steps) u ≡ true
          → color_of s' u ≡ some black)

  search_all-rests :
      (fuel : ℕ) (steps : List Step) (s : Search)
      → IsFound index s
      → search_all index fuel steps s ≡ s
  unfolding search_all
  search_all-rests fuel [] s h = refl
  search_all-rests fuel (step ∷ steps) s (last, rest, e, cycle) =
      subst (λ l. search_all index fuel (step ∷ steps) (with_cycle s l) ≡ with_cycle s l) (sym e)
        refl

  IsDone-cons :
      (step : Step) (steps : List Step) (s t u : Search)
      → IsClean index s t
      → color_of t step.id ≡ some black
      → IsDone steps t u
      → IsDone (step ∷ steps) s u
  IsDone-cons step steps s t u clean black_id (more, all_black) = (
    IsClean-trans index s t u clean more,
    λ v h. elim (Bool-cases (step.id == v)) [
      | inl same ↦ rw⁻¹ ((==_iff step.id v).0 same) (more.kept step.id black_id)
      | inr other ↦ all_black v (rw other at h)
    ],
  )

  search_all_white :
      (fuel : ℕ) (step : Step) (steps : List Step) (s : Search)
      → s.on_cycle ≡ []
      → color_of s step.id ≡ some white
      → search_all index fuel (step ∷ steps) s
        ≡ search_all index fuel steps (dfs index fuel step.id s)
  unfolding search_all
  search_all_white fuel step steps s quiet e =
      subst
        (λ l.
          search_all index fuel (step ∷ steps) (with_cycle s l)
          ≡ search_all index fuel steps (dfs index fuel step.id (with_cycle s l)))
        (sym quiet) (rw (e, search_all) refl)

  search_all_black :
      (fuel : ℕ) (step : Step) (steps : List Step) (s : Search)
      → s.on_cycle ≡ []
      → color_of s step.id ≡ some black
      → search_all index fuel (step ∷ steps) s ≡ search_all index fuel steps s
  unfolding search_all
  search_all_black fuel step steps s quiet e =
      subst
        (λ l.
          search_all index fuel (step ∷ steps) (with_cycle s l)
          ≡ search_all index fuel steps (with_cycle s l))
        (sym quiet) (rw (e, search_all) refl)

  pub search_all-visits :
      (fuel : ℕ) (steps : List Step) (s : Search)
      → IsFine index s
      → ((u : StepId) → color_of s u ≢ some gray)
      → whites s.color ≤ fuel
      → ((u : StepId)
          → contains (map (λ (t : Step). t.id) steps) u ≡ true
          → is_some (lookup u index) ≡ true)
      → IsFound index (search_all index fuel steps s)
        ⊎ IsDone steps s (search_all index fuel steps s)
  unfolding search_all
  search_all-visits fuel [] s fine no_gray few known = inr (IsClean-refl index s fine, λ u h. cc)
  search_all-visits fuel (step ∷ steps) s fine no_gray few known =
      let id = step.id in
      let known' : (u : StepId)
          → contains (map (λ (t : Step). t.id) steps) u ≡ true
          → is_some (lookup u index) ≡ true =
        λ u h. known u (ground arith) in
      let has_color : is_some (color_of s id) ≡ true =
        fine.colored id (known id (ground (arith, ==_refl id))) in
      elim (Seen-cases (color_of s id)) [
        | unknown e ↦ cc (rw e at has_color)
        | is_gray e ↦ absurd (no_gray id e)
        | is_white e ↦
            rw (search_all_white fuel step steps s fine.quiet e)
              (elim (dfs-Visits fuel id s fine e few (λ g gray_g. absurd (no_gray g gray_g))) [
                | inl cycle ↦
                    inl (rw (search_all-rests fuel steps (dfs index fuel id s) cycle) cycle)
                | inr (clean, black_id) ↦
                    elim (search_all-visits fuel steps (dfs index fuel id s) clean.fine
                      (λ u gray_u. no_gray u (clean.grays u gray_u))
                      (omega (arith, few, clean.fewer)) known') [
                        | inl cycle ↦ inl cycle
                        | inr done ↦
                            inr
                              (IsDone-cons step steps s (dfs index fuel id s) _ clean black_id done)
                      ]
              ])
        | is_black e ↦
            rw (search_all_black fuel step steps s fine.quiet e)
              (elim (search_all-visits fuel steps s fine no_gray few known') [
                | inl cycle ↦ inl cycle
                | inr done ↦ inr (IsDone-cons step steps s s _ (IsClean-refl index s fine) e done)
              ])
      ]
