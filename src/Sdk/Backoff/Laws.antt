-- ===== src/Sdk/Backoff/Laws.antt =====
-- The delays of workflow-sdk-node/src/retry/backoff.ts.
use rochallor_engine.Base.{
  ℕ, zero, suc, ◌+◌, ◌-◌, ◌*◌, ◌/◌, ◌≤◌, ◌<◌, ◌≡◌, ap, ◌∙◌, arith, leb, Bool-cases, inl, inr,
}
use Prim.Native.Nat.{◌^◌, min}
use native.Mathlib.Nat.{
  pow-suc, one-le-pow, mul-le-mul_left, mul-le-mul_right, le-div_iff_mul-le, div-lt_iff_lt-mul,
}
use rochallor_engine.Sdk.Backoff.{
  base_delay_ms, factor, max_delay_ms, grow, rounds, base_delay, jittered, round, clamp, delay,
}

pow-pos : (n : ℕ) → 1 ≤ 2 ^ n
pow-pos n = one-le-pow n 2 (omega arith)

grow_lem : (n ms : ℕ) → ms ≤ max_delay_ms → grow n ms ≡ min (ms * 2 ^ n) max_delay_ms
unfolding grow
grow_lem zero ms h = omega arith
grow_lem (suc n) ms h = elim (Bool-cases (leb max_delay_ms (ms * factor))) [
  | inl top ↦
      let big : max_delay_ms ≤ ms * 2 = ground arith in
      let more : ms * 2 * 1 ≤ ms * 2 * 2 ^ n = mul-le-mul_left (ms * 2) (pow-pos n) in
      rw (top, pow-suc 2 n) (omega arith)
  | inr below ↦
      let small : ms * 2 ≤ max_delay_ms = ground arith in
      rw (below, pow-suc 2 n) (grow_lem n (ms * 2) small ∙ omega arith)
]

-- Before the jitter the delay doubles with each attempt, from 100 ms up to 30 s; an attempt of 0
-- counts as the first.
pub base_delay_lem : (attempt : ℕ) → base_delay attempt ≡ min (100 * 2 ^ (attempt - 1)) 30000
unfolding base_delay
base_delay_lem attempt =
    let same : rounds attempt ≡ attempt - 1 = ground arith in
    ap (λ k. grow k base_delay_ms) same ∙ grow_lem (attempt - 1) base_delay_ms (omega arith)

-- The jitter keeps 80 to 120 percent.
jittered_bounds :
    (ms scale draw : ℕ)
    → draw ≤ scale
    → (4 * (scale * ms) ≤ jittered ms scale draw) × (jittered ms scale draw ≤ 6 * (scale * ms))
unfolding jittered
jittered_bounds ms scale draw h =
    let less : draw * ms ≤ scale * ms = mul-le-mul_right ms h in omega arith

round-le : (x q unit : ℕ) → 0 < unit → q * (2 * unit) ≤ 2 * x + unit → q ≤ round x unit
unfolding round
round-le x q unit pos h = (le-div_iff_mul-le (omega arith)).1 h

round-lt : (x q unit : ℕ) → 0 < unit → 2 * x + unit < q * (2 * unit) → round x unit < q
unfolding round
round-lt x q unit pos h = (div-lt_iff_lt-mul (omega arith)).1 h

round-jittered :
    (ms scale draw : ℕ)
    → 0 < scale
    → draw ≤ scale
    → ((8 * ms + 5) / 10 ≤ round (jittered ms scale draw) (5 * scale))
      × (round (jittered ms scale draw) (5 * scale) ≤ (12 * ms + 5) / 10)
round-jittered ms scale draw pos h =
    let (low, high) = jittered_bounds ms scale draw h in
    let q = (8 * ms + 5) / 10 in
    let u = (12 * ms + 5) / 10 in
    let lower : q * 10 * scale ≤ (8 * ms + 5) * scale = mul-le-mul_right scale (omega arith) in
    let upper : (12 * ms + 6) * scale ≤ (u + 1) * 10 * scale =
      mul-le-mul_right scale (omega arith) in
    let below = round-lt (jittered ms scale draw) (u + 1) (5 * scale) (omega arith) (omega arith) in
    (round-le (jittered ms scale draw) q (5 * scale) (omega arith) (omega arith), omega arith)

-- Whatever is drawn, the delay is at least 80 percent of the base delay and at most 120 percent of
-- it, both rounded, and never more than 30 s.
pub delay_bounds :
    (attempt scale draw : ℕ)
    → 0 < scale
    → draw ≤ scale
    → ((8 * base_delay attempt + 5) / 10 ≤ delay attempt scale draw)
      × (delay attempt scale draw ≤ (12 * base_delay attempt + 5) / 10)
      × (delay attempt scale draw ≤ 30000)
unfolding delay clamp
delay_bounds attempt scale draw pos h =
    let (low, high) = round-jittered (base_delay attempt) scale draw pos h in
    let top : base_delay attempt ≤ 30000 = omega (arith, base_delay_lem attempt) in ground arith
