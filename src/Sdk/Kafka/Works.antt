-- ===== src/Sdk/Kafka/Works.antt =====
-- The list of the works that run: looking one up, taking it out, moving it on.
use mathlib.Core.Path.{subst}
use rochallor_engine.Base.{
  All-weaken, ℕ, zero, suc, Bool, false, some, List, [], ◌∷◌, ◌&&◌, ◌≡◌, arith, All, nat_eq,
  get_elem?, Option-cases, inl, inr,
}
use rochallor_engine.Sdk.Kafka.{Stage, Work, State, at, remove, with_stage}

-- The same owner of the same partition.
abbrev pub clash : Work → Work → Bool
clash w v = nat_eq w.partition v.partition && nat_eq w.owner v.owner

-- No two works run for one owner of one partition.
abbrev pub Apart : List Work → Type 0
Apart [] = Unit
Apart (w ∷ ws) = All (λ v. clash w v ≡ false) ws × Apart ws

clash_comm : (w v : Work) → clash w v ≡ false → clash v w ≡ false
clash_comm w v h = ground arith

pub All-zip {ℓ κ} :
    {A : Type ℓ} {P Q R : A → Type κ}
    → ((x : A) → P x → Q x → R x)
    → (xs : List A) → All P xs
    → All Q xs
    → All R xs
All-zip f [] ps qs = tt
All-zip f (x ∷ xs) ps qs = (f x ps.0 qs.0, All-zip f xs ps.1 qs.1)

module _ {κ} (P : Work → Type κ) where
  pub All-get_elem? : (i : ℕ) (ws : List Work) (w : Work) → get_elem? ws i ≡ some w → All P ws → P w
  All-get_elem? i [] w e h = cc
  All-get_elem? zero (v ∷ ws) w e h = subst P (cc e) h.0
  All-get_elem? (suc i) (v ∷ ws) w e h = All-get_elem? i ws w e h.1

  pub All-remove : (i : ℕ) (ws : List Work) → All P ws → All P (remove i ws)
  All-remove i [] h = tt
  All-remove zero (v ∷ ws) h = h.1
  All-remove (suc i) (v ∷ ws) h = (h.0, All-remove i ws h.1)

  pub All-with_stage :
      (stage : Stage) (i : ℕ) (ws : List Work) (w : Work)
      → get_elem? ws i ≡ some w
      → P (record w { stage = stage })
      → All P ws
      → All P (with_stage stage i ws)
  All-with_stage stage i [] w e p h = cc
  All-with_stage stage zero (v ∷ ws) w e p h =
      let same : w ≡ v = cc (e) in
      (subst (λ (u : Work). P (record u { stage = stage })) same p, h.1)
  All-with_stage stage (suc i) (v ∷ ws) w e p h = (h.0, All-with_stage stage i ws w e p h.1)

pub Apart-remove : (i : ℕ) (ws : List Work) → Apart ws → Apart (remove i ws)
Apart-remove i [] h = tt
Apart-remove zero (v ∷ ws) h = h.1
Apart-remove (suc i) (v ∷ ws) h = (All-remove _ i ws h.0, Apart-remove i ws h.1)

clash-with_stage :
    (u : Work) (stage : Stage) (i : ℕ) (ws : List Work)
    → All (λ v. clash u v ≡ false) ws
    → All (λ v. clash u v ≡ false) (with_stage stage i ws)
clash-with_stage u stage i [] h = tt
clash-with_stage u stage zero (v ∷ ws) h = h
clash-with_stage u stage (suc i) (v ∷ ws) h = (h.0, clash-with_stage u stage i ws h.1)

pub Apart-with_stage :
    (stage : Stage) (i : ℕ) (ws : List Work) → Apart ws → Apart (with_stage stage i ws)
Apart-with_stage stage i [] h = tt
Apart-with_stage stage zero (v ∷ ws) h = h
Apart-with_stage stage (suc i) (v ∷ ws) h =
    (clash-with_stage v stage i ws h.0, Apart-with_stage stage i ws h.1)

-- The other works do not clash with the one that is taken out.
pub Apart-removed :
    (i : ℕ) (ws : List Work) (w : Work)
    → get_elem? ws i ≡ some w
    → Apart ws
    → All (λ v. clash v w ≡ false) (remove i ws)
Apart-removed i [] w e h = cc
Apart-removed zero (v ∷ ws) w e h =
    let same : v ≡ w = cc (e) in
    subst (λ (u : Work). All (λ x. clash x u ≡ false) ws) same
      (All-weaken (λ x p. clash_comm v x p) ws h.0)
Apart-removed (suc i) (v ∷ ws) w e h =
    (All-get_elem? (λ x. clash v x ≡ false) i ws w e h.0, Apart-removed i ws w e h.1)

-- What a work keeps when it goes on is kept, and if there is no such work nothing changes.
pub at-keeps {κ} :
    (P : State → Type κ) {s : State} (i : ℕ) (f : Work → State)
    → P s
    → ((w : Work) → get_elem? s.pending i ≡ some w → P (f w))
    → P (at i s f)
at-keeps P {s} i f old keep = elim (Option-cases (get_elem? s.pending i)) [
  | inl e ↦ rw (e, at) old
  | inr (w, e) ↦ rw (e, at) (keep w e)
]
