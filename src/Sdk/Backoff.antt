-- ===== src/Sdk/Backoff.antt =====
-- workflow-sdk-node/src/retry/backoff.ts, with the random draw as an argument.
--
-- `Math.random()` is the fraction draw / scale, so the jitter 0.2 * ms * (2 * draw / scale - 1) and
-- the sum are computed exactly, in units of 1 / (5 * scale) of a millisecond. (Floating point may
-- differ from the exact value by less than a unit in the last place.)
pub mod Laws
use rochallor_engine.Base.{ℕ, zero, suc, ◌+◌, ◌-◌, ◌*◌, ◌/◌, if◌then◌else◌, leb, ltb}

abbrev pub base_delay_ms : ℕ
base_delay_ms = 100

abbrev pub factor : ℕ
factor = 2

abbrev pub max_delay_ms : ℕ
max_delay_ms = 30000

-- `for (let i = 1; i < a; i++)` with `n` rounds left: double, and stop at the maximum.
unfoldable pub grow : ℕ → ℕ → ℕ
grow zero ms = ms
grow (suc n) ms =
    let rest = grow n (ms * factor) in if leb max_delay_ms (ms * factor) then max_delay_ms else rest

-- `Math.max(1, attempt) - 1`, the rounds of the loop.
abbrev pub rounds : ℕ → ℕ
rounds attempt = (if ltb attempt 1 then 1 else attempt) - 1

unfoldable pub base_delay : ℕ → ℕ
unfolding grow
base_delay attempt = grow (rounds attempt) base_delay_ms

-- `ms + jitter` in units of 1 / (5 * scale): 5 * scale * ms + ms * (2 * draw - scale). The
-- subtraction is last, where it does not stop at 0.
unfoldable pub jittered : ℕ → ℕ → ℕ → ℕ
jittered ms scale draw = 5 * scale * ms + 2 * draw * ms - scale * ms

-- `Math.round(x / unit)`, which rounds a half up.
unfoldable pub round : ℕ → ℕ → ℕ
round x unit = (2 * x + unit) / (2 * unit)

unfoldable pub clamp : ℕ → ℕ
clamp ms = if ltb max_delay_ms ms then max_delay_ms else ms

-- `delay(attempt)`. The lower end of the clamp, 0, is that of ℕ.
unfoldable pub delay : ℕ → ℕ → ℕ → ℕ
unfolding base_delay jittered round clamp
delay attempt scale draw = clamp (round (jittered (base_delay attempt) scale draw) (5 * scale))
