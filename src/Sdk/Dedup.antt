-- ===== src/Sdk/Dedup.antt =====
-- workflow-sdk-node/src/runner/deduplication_cache.ts. Times are milliseconds of `Date.now()`, an
-- argument of every call.
pub mod Laws
use rochallor_engine.Base.{
  ℕ, zero, String, Bool, true, false, Option, none, some, List, [], ◌∷◌, ◌-◌, ◌+◌, ◌/◌, ◌*◌,
  if◌then◌else◌, ltb, leb, not, is_empty, lookup, insert,
}

pub record Cache : Type 0 where
  pub seen_at : List (String × ℕ)
  pub window_ms : ℕ

abbrev pub default_window_ms : ℕ
default_window_ms = 10 * 60 * 1000

unfoldable pub create : ℕ → Cache
create window = record { seen_at = []; window_ms = window }

-- `Math.max(1000, windowMs / 4)`, rounded down, the period of the sweep.
unfoldable pub sweep_period : ℕ → ℕ
sweep_period window = if ltb (window / 4) 1000 then 1000 else window / 4

-- `now - seenAt < windowMs`. A clock that was set back makes the difference negative.
abbrev pub is_recent : ℕ → ℕ → ℕ → Bool
is_recent window now seen = ltb now (seen + window)

abbrev recent_entry : ℕ → ℕ → Option ℕ → Bool
recent_entry window now none = false
recent_entry window now (some seen) = is_recent window now seen

unfoldable pub has : Cache → ℕ → String → Bool
has c now id = recent_entry c.window_ms now (lookup id c.seen_at)

unfoldable pub mark : Cache → ℕ → String → Cache
mark c now id = if is_empty id then c else record c { seen_at = insert id now c.seen_at }

unfoldable pub seen_recently : Cache → ℕ → String → Cache × Bool
unfolding has mark
seen_recently c now id =
    if is_empty id then (c, false) else if has c now id then (c, true) else (mark c now id, false)

-- `seenAt < now - windowMs` deletes the entry.
unfoldable pub sweep_entries : ℕ → ℕ → List (String × ℕ) → List (String × ℕ)
sweep_entries window now [] = []
sweep_entries window now ((id, seen) ∷ rest) =
    if ltb (seen + window) now
    then sweep_entries window now rest
    else (id, seen) ∷ sweep_entries window now rest

unfoldable pub sweep : Cache → ℕ → Cache
unfolding sweep_entries
sweep c now = record c { seen_at = sweep_entries c.window_ms now c.seen_at }

unfoldable pub close : Cache → Cache
close c = record c { seen_at = [] }
