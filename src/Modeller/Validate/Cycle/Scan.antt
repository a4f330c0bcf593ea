-- ===== src/Modeller/Validate/Cycle/Scan.antt =====
-- The loop over the targets in `checkGraphCycle` of workflow-modeller/src/domain/validate.ts.
use rochallor_engine.Base.{
  ℕ, ◌≤◌, true, false, Option, none, some, List, [], ◌∷◌, ◌≡◌, ◌⊎◌, inl, inr, refl, arith, lookup,
  lookup-insert, is_some, contains, ◌==◌, ==_iff, ==_refl, Bool-cases, ap,
}
use rochallor_engine.Modeller.Types.{StepId}
use rochallor_engine.Modeller.Validate.Refs.{Index}
use rochallor_engine.Modeller.Validate.Cycle.{
  Color, white, gray, black, Search, paint, found, scan, first_pushed,
}
use rochallor_engine.Modeller.Validate.Cycle.Trails.{
  Edge, Trail, Leads, Leads-extend, Safe, safe, Safe-unknown,
}
use rochallor_engine.Modeller.Validate.Cycle.Colors.{whites, whites-black}

abbrev pub with_cycle : Search → List StepId → Search
with_cycle s l = record { color = s.color; on_cycle = l }

abbrev pub color_of : Search → StepId → Option Color
color_of s u = lookup u s.color

pub data Seen (c : Option Color) : Type 0 where
  unknown : c ≡ none → Seen c
  is_gray : c ≡ some gray → Seen c
  is_white : c ≡ some white → Seen c
  is_black : c ≡ some black → Seen c

pub Seen-cases : (c : Option Color) → Seen c
Seen-cases none = unknown refl
Seen-cases (some gray) = is_gray refl
Seen-cases (some white) = is_white refl
Seen-cases (some black) = is_black refl

module _ (index : Index) where
  -- A cycle is found: the id that was pushed first lies on one.
  abbrev pub IsFound : Search → Type 0
  IsFound s =
      (last : StepId) × (rest : List StepId) × (s.on_cycle ≡ last ∷ rest)
      × Trail index (first_pushed last rest) (first_pushed last rest)

  abbrev IsColored : Search → Type 0
  IsColored s = (u : StepId) → is_some (lookup u index) ≡ true → is_some (color_of s u) ≡ true

  -- Nothing is found yet, no walk from a black id goes on for ever, and every id of the index has a
  -- colour.
  pub record IsFine (s : Search) : Type 0 where
    pub quiet : s.on_cycle ≡ []
    pub blacks : (u : StepId) → color_of s u ≡ some black → Safe index u
    pub colored : IsColored s

  -- What a part of the search that finds nothing does to the colours.
  pub record IsClean (s s' : Search) : Type 0 where
    pub fine : IsFine s'
    pub grays : (u : StepId) → color_of s' u ≡ some gray → color_of s u ≡ some gray
    pub kept : (u : StepId) → color_of s u ≡ some black → color_of s' u ≡ some black
    pub fewer : whites s'.color ≤ whites s.color

  pub IsClean-refl : (s : Search) → IsFine s → IsClean s s
  IsClean-refl s h = record { fine = h; grays = λ u e. e; kept = λ u e. e; fewer = omega arith }

  pub IsClean-trans : (s t u : Search) → IsClean s t → IsClean t u → IsClean s u
  IsClean-trans s t u h k = record {
    fine = k.fine;
    grays = λ v e. h.grays v (k.grays v e);
    kept = λ v e. k.kept v (h.kept v e);
    fewer = omega (arith, h.fewer, k.fewer);
  }

  -- What a recursive call promises on a white id that every gray id leads to.
  abbrev pub Visits : ℕ → (StepId → Search → Search) → Type 0
  Visits fuel visit =
      (v : StepId) (s : Search)
      → IsFine s
      → color_of s v ≡ some white
      → whites s.color ≤ fuel
      → ((g : StepId) → color_of s g ≡ some gray → Leads index g v)
      → IsFound (visit v s) ⊎ (IsClean s (visit v s) × (color_of (visit v s) v ≡ some black))

  -- A search that has found a cycle is left as it is.
  abbrev pub Rests : (StepId → Search → Search) → Type 0
  Rests visit = (v : StepId) (s : Search) → IsFound s → visit v s ≡ s

  found-IsFound : (u : StepId) (s : Search) → IsFound s → IsFound (found u s)
  unfolding found
  found-IsFound u s (last, rest, e, cycle) = (u, last ∷ rest, ap (λ l. u ∷ l) e, cycle)

  paint-IsFine : (id : StepId) (s : Search) → IsFine s → Safe index id → IsFine (paint id black s)
  unfolding paint
  paint-IsFine id s h safe_id = record {
    quiet = h.quiet;
    blacks = λ u e. elim (Bool-cases (id == u)) [
      | inl same ↦ rw⁻¹ ((==_iff id u).0 same) safe_id
      | inr other ↦ h.blacks u (ground (arith, lookup-insert id u black s.color))
    ];
    colored = λ u e. ground (arith, h.colored u e, lookup-insert id u black s.color);
  }

  paint-IsClean :
      (id : StepId) (s : Search) → IsFine s → Safe index id → IsClean s (paint id black s)
  unfolding paint
  paint-IsClean id s h safe_id = record {
    fine = paint-IsFine id s h safe_id;
    grays = λ u e. ground (arith, lookup-insert id u black s.color);
    kept = λ u e. ground (arith, lookup-insert id u black s.color);
    fewer = whites-black id s.color;
  }

  module _ (fuel : ℕ) (visit : StepId → Search → Search) (visits : Visits fuel visit)
      (rests : Rests visit) (id : StepId) where
    scan-rests :
        (targets : List StepId) (s : Search) → IsFound s → IsFound (scan visit id targets s)
    unfolding scan paint
    scan-rests [] s h = h
    scan-rests (t ∷ targets) s h = elim (Seen-cases (color_of s t)) [
      | unknown e ↦ rw (e, scan) (scan-rests targets s h)
      | is_gray e ↦ rw (e, scan) (found-IsFound t s h)
      | is_white e ↦ rw (e, scan) (scan-rests targets (visit t s) (rw (rests t s h) h))
      | is_black e ↦ rw (e, scan) (scan-rests targets s h)
    ]

    after :
        (s t : Search) (targets : List StepId)
        → IsClean s t
        → IsFound (scan visit id targets t)
          ⊎ (IsClean t (scan visit id targets t)
              × (color_of (scan visit id targets t) id ≡ some black))
        → IsFound (scan visit id targets t)
          ⊎ (IsClean s (scan visit id targets t)
              × (color_of (scan visit id targets t) id ≡ some black))
    after s t targets clean (inl cycle) = inl cycle
    after s t targets clean (inr (more, black_id)) =
        inr (IsClean-trans s t (scan visit id targets t) clean more, black_id)

    -- Once `t` is safe, it needs no scan.
    without :
        (t : StepId) (targets : List StepId)
        → Safe index t
        → ((v : StepId) → Edge index id v → Safe index v ⊎ (contains (t ∷ targets) v ≡ true))
        → (v : StepId) → Edge index id v
        → Safe index v ⊎ (contains targets v ≡ true)
    without t targets safe_t rest v e = elim (Bool-cases (t == v)) [
      | inl same ↦ inl (rw⁻¹ ((==_iff t v).0 same) safe_t)
      | inr other ↦ elim (rest v e) [
        | inl safe_v ↦ inl safe_v
        | inr listed ↦ inr (rw other at listed)
      ]
    ]

    -- The targets that were scanned are safe.
    pub scan-visits :
        (targets : List StepId) (s : Search)
        → IsFine s
        → whites s.color ≤ fuel
        → ((g : StepId) → color_of s g ≡ some gray → Leads index g id)
        → ((v : StepId) → contains targets v ≡ true → Edge index id v)
        → ((v : StepId) → Edge index id v → Safe index v ⊎ (contains targets v ≡ true))
        → IsFound (scan visit id targets s)
          ⊎ (IsClean s (scan visit id targets s)
              × (color_of (scan visit id targets s) id ≡ some black))
    unfolding scan found paint
    scan-visits [] s fine few leads edges rest =
        let none_left : (v : StepId) → Edge index id v → Safe index v =
          λ v e. elim (rest v e) [ inl safe_v ↦ safe_v | inr listed ↦ cc ] in
        inr (
          paint-IsClean id s fine (safe none_left),
          ground (arith, lookup-insert id id black s.color, ==_refl id),
        )
    scan-visits (t ∷ targets) s fine few leads edges rest =
        let edge : Edge index id t = edges t (ground (arith, ==_refl t)) in
        let edges' : (v : StepId) → contains targets v ≡ true → Edge index id v =
          λ v h. edges v (ground arith) in
        elim (Seen-cases (color_of s t)) [
          | unknown e ↦
              let absent : is_some (lookup t index) ≡ false = ground (arith, fine.colored t) in
              rw (e, scan)
                (scan-visits targets s fine few leads edges'
                  (without t targets (Safe-unknown index t absent) rest))
          | is_gray e ↦ inl (
              rw (e, scan)
                (t, [], ap (λ l. t ∷ l) fine.quiet, Leads-extend index t id t (leads t e) edge))
          | is_white e ↦
              elim (visits t s fine e few
                (λ g gray_g. inr (Leads-extend index g id t (leads g gray_g) edge))) [
                  | inl cycle ↦ inl (rw (e, scan) (scan-rests targets (visit t s) cycle))
                  | inr (clean, black_t) ↦
                      rw (e, scan)
                        (after s (visit t s) targets clean (
                          scan-visits targets (visit t s) clean.fine
                            (omega (arith, few, clean.fewer))
                            (λ g gray_g. leads g (clean.grays g gray_g)) edges'
                            (without t targets (clean.fine.blacks t black_t) rest)))
                ]
          | is_black e ↦
              rw (e, scan)
                (scan-visits targets s fine few leads edges'
                  (without t targets (fine.blacks t e) rest))
        ]
