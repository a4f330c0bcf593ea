-- ===== src/Modeller/Validate/Duration.antt =====
-- `ISO_DURATION_PATTERN` of workflow-modeller/src/domain/validate.ts. Each optional group of the
-- pattern is digits up to its letter, so it matches in at most one way, and the greedy match that
-- is taken here is the only one that the pattern can take.
use rochallor_engine.Base.{
  ℕ, String, Bool, true, false, Option, none, some, ◌&&◌, not, if◌then◌else◌, code, nat_eq, leb,
  is_empty,
}

unfoldable pub is_digit : ℕ → Bool
is_digit c = leb b'0' c && leb c b'9'

abbrev pub starts_with_digit : String → Bool
starts_with_digit String.[] = false
starts_with_digit (String.◌∷◌ c s) = leb b'0' (code c) && leb (code c) b'9'

-- `\d*`: what is left behind the digits.
unfoldable pub skip_digits : String → String
unfolding is_digit
skip_digits String.[] = ""
skip_digits (String.◌∷◌ c s) = if is_digit (code c) then skip_digits s else String.◌∷◌ c s

-- A letter, and what is left behind it.
unfoldable pub after_letter : ℕ → String → Option String
after_letter letter String.[] = none
after_letter letter (String.◌∷◌ c s) = if nat_eq (code c) letter then some s else none

-- `(\d+X)?`
unfoldable pub skip_group : ℕ → String → String
unfolding skip_digits after_letter
skip_group letter s =
    if starts_with_digit s
    then elim (after_letter letter (skip_digits s)) [ none ↦ s | some rest ↦ rest ]
    else s

-- `(?:\.\d+)?`
unfoldable pub skip_fraction : String → String
unfolding skip_digits after_letter
skip_fraction s = elim (after_letter b'.' s) [
  | none ↦ s
  | some rest ↦ if starts_with_digit rest then skip_digits rest else s
]

-- `(\d+(?:\.\d+)?S)?`
unfoldable pub skip_seconds : String → String
unfolding skip_digits skip_fraction after_letter
skip_seconds s =
    if starts_with_digit s
    then elim (after_letter b'S' (skip_fraction (skip_digits s))) [ none ↦ s | some rest ↦ rest ]
    else s

-- `(T(?=\d)…)?$`
unfoldable pub time_part : String → Bool
unfolding skip_group skip_seconds after_letter
time_part String.[] = true
time_part (String.◌∷◌ c s) =
    nat_eq (code c) b'T'
    && starts_with_digit s
    && is_empty (skip_seconds (skip_group b'M' (skip_group b'H' s)))

unfoldable pub date_part : String → String
unfolding skip_group
date_part s = skip_group b'D' (skip_group b'W' (skip_group b'M' (skip_group b'Y' s)))

-- `ISO_DURATION_PATTERN.test(s)`.
unfoldable pub iso_duration : String → Bool
unfolding date_part time_part after_letter
iso_duration s = elim (after_letter b'P' s) [
  | none ↦ false
  | some rest ↦ not (is_empty rest) && time_part (date_part rest)
]
