-- ===== src/Monitor/Request.antt =====
-- Query strings of the monitor's back end, and workflow-monitor-bff/src/common/utils/
-- utc-timestamp.ts.
--
-- What the platform does to texts is a parameter: `new Date`, `Number`, `toISOString`, the cast of
-- a text to a timestamp by the database, the digest and the encoding of cursors.
use rochallor_engine.Base.{
  ℕ, zero, suc, ◌+◌, ◌-◌, ◌*◌, String, Bool, true, false, Option, none, some, List, ◌&&◌, ◌||◌,
  if◌then◌else◌, leb, ltb, nat_eq, is_empty, ◌==◌, ◌≡◌, code, Char,
}

-- The value of a parameter that may be repeated in the query string.
pub data QueryValue : Type 0 where
  text : String → QueryValue
  texts : List String → QueryValue

-- A result, or a `BadRequestException` with its message.
pub data Checked {ℓ} (A : Type ℓ) : Type ℓ where
  ok : A → Checked A
  bad_request : String → Checked A

infixl 5 ◌>>=◌ ◌>>◌
abbrev pub ◌>>=◌ {ℓ κ} : {A : Type ℓ} {B : Type κ} → Checked A → (A → Checked B) → Checked B
ok a >>= f = f a
bad_request message >>= f = bad_request message

abbrev pub ◌>>◌ {ℓ} : {B : Type ℓ} → Checked (Unit {0}) → Checked B → Checked B
m >> k = m >>= λ _. k

-- `if (test) throw new BadRequestException(message)`.
abbrev pub refuse_if : Bool → String → Checked (Unit {0})
refuse_if true message = bad_request message
refuse_if false message = ok tt

-- What `new Date(text)` reports: milliseconds since the epoch, and the fields in UTC. The month is
-- `getUTCMonth() + 1`.
pub record UtcDate : Type 0 where
  pub time : ℕ
  pub year : ℕ
  pub month : ℕ
  pub day : ℕ
  pub hours : ℕ
  pub minutes : ℕ
  pub seconds : ℕ

-- `T` is the type of the encoded cursors, `P` of what a cursor holds as JSON, `K` of what is
-- digested. An invalid date is `none`, and so is a number that is not natural. The timestamps of
-- the database are microseconds.
pub record Platform (T P K : Type 0) : Type 0 where
  pub date : String → Option UtcDate
  pub number : String → Option ℕ
  pub to_iso_string : ℕ → String
  pub timestamptz : String → ℕ
  pub digest : K → String
  pub encode : P → T
  pub decode : T → Option P

-- A text that the code treats as given: `if (value)`.
abbrev pub given : Option String → Option String
given none = none
given (some s) = if is_empty s then none else some s

-- `value === s`, where `value` may be missing or of another type.
abbrev pub equals : Option String → String → Bool
equals none s = false
equals (some t) s = t == s

abbrev pub is_digit : Char → Bool
is_digit c = leb 48 (code c) && leb (code c) 57

-- `/^\d+$/`.
unfoldable pub all_digits : String → Bool
all_digits String.[] = false
all_digits (String.◌∷◌ c s) = is_digit c && (is_empty s || all_digits s)

-- `Number(text)` on a text of digits.
unfoldable pub digits_value : ℕ → String → ℕ
digits_value acc String.[] = acc
digits_value acc (String.◌∷◌ c s) = digits_value (acc * 10 + (code c - 48)) s

-- `(\d{n})` at the start of a text: its number and the rest.
unfoldable pub read_digits : ℕ → ℕ → String → Option (ℕ × String)
read_digits zero acc s = some (acc, s)
read_digits (suc n) acc String.[] = none
read_digits (suc n) acc (String.◌∷◌ c s) =
    if is_digit c then read_digits n (acc * 10 + (code c - 48)) s else none

-- One literal character, then `n` digits.
unfoldable pub read_field : String → ℕ → String → Option (ℕ × String)
unfolding read_digits
read_field separator n String.[] = none
read_field separator n (String.◌∷◌ c s) =
    if String.◌∷◌ c "" == separator then read_digits n 0 s else none

-- `\d+Z$`.
unfoldable pub digits_then_z : String → Bool
digits_then_z String.[] = false
digits_then_z (String.◌∷◌ c s) = is_digit c && (s == "Z" || digits_then_z s)

-- `(?:\.\d+)?Z$`.
unfoldable pub fraction_then_z : String → Bool
unfolding digits_then_z
fraction_then_z String.[] = false
fraction_then_z (String.◌∷◌ c s) =
    if is_empty s then String.◌∷◌ c "" == "Z" else String.◌∷◌ c "" == "." && digits_then_z s

abbrev and_then : {A : Type 0} → Option (ℕ × String) → (ℕ → String → Option A) → Option A
and_then none f = none
and_then (some (n, rest)) f = f n rest

-- `UTC_TIMESTAMP_PATTERN.exec`: the numbers of the six groups.
unfoldable pub exec_pattern : String → Option (ℕ × ℕ × ℕ × ℕ × ℕ × ℕ)
unfolding read_digits read_field fraction_then_z
exec_pattern value = and_then (read_digits 4 0 value) λ year rest.
    and_then (read_field "-" 2 rest) λ month rest. and_then (read_field "-" 2 rest) λ day rest.
      and_then (read_field "T" 2 rest) λ hours rest.
        and_then (read_field ":" 2 rest) λ minutes rest.
          and_then (read_field ":" 2 rest) λ seconds rest.
            if fraction_then_z rest then some (year, month, day, hours, minutes, seconds) else none

-- `parsed` is a valid date whose fields are the six numbers.
unfoldable pub same_fields : ℕ × ℕ × ℕ × ℕ × ℕ × ℕ → Option UtcDate → Bool
same_fields groups none = false
same_fields (year, month, day, hours, minutes, seconds) (some parsed) =
    nat_eq parsed.year year
    && nat_eq parsed.month month
    && nat_eq parsed.day day
    && nat_eq parsed.hours hours
    && nat_eq parsed.minutes minutes
    && nat_eq parsed.seconds seconds

abbrev matched : Option (ℕ × ℕ × ℕ × ℕ × ℕ × ℕ) → Option UtcDate → Bool
matched none parsed = false
matched (some groups) parsed = same_fields groups parsed

module _ {T P K : Type 0} (platform : Platform T P K) where
  unfoldable pub is_utc_timestamp : String → Bool
  unfolding exec_pattern same_fields
  is_utc_timestamp value = matched (exec_pattern value) (platform.date value)

  -- `Date.parse`.
  unfoldable pub date_parse : String → Option ℕ
  date_parse value = elim (platform.date value) [ none ↦ none | some parsed ↦ some parsed.time ]

  -- `a >= b` on the results of `Date.parse`, false on NaN.
  unfoldable pub not_before : String → String → Bool
  unfolding date_parse
  not_before a b = elim (date_parse a) [
    | none ↦ false
    | some m ↦ elim (date_parse b) [ none ↦ false | some n ↦ leb n m ]
  ]

  -- `parsed` of `pageSize`.
  unfoldable pub requested_size : Option String → Option ℕ
  requested_size none = some 50
  requested_size (some value) = platform.number value

  unfoldable pub page_size : Option String → Checked ℕ
  unfolding requested_size
  page_size value = elim (requested_size value) [
    | none ↦ bad_request "Page size must be between 1 and 100"
    | some n ↦
        if ltb n 1 || ltb 100 n then bad_request "Page size must be between 1 and 100" else ok n
  ]

-- What the code relies on: an ISO text of a time is a UTC timestamp and is read back as that time by
-- `Date.parse` and by the database, and an encoded cursor is decoded.
pub record IsPlatform {T P K : Type 0} (platform : Platform T P K) : Type 0 where
  pub iso_parsed : (ms : ℕ) → date_parse platform (platform.to_iso_string ms) ≡ some ms
  pub iso_utc : (ms : ℕ) → is_utc_timestamp platform (platform.to_iso_string ms) ≡ true
  pub iso_instant : (ms : ℕ) → platform.timestamptz (platform.to_iso_string ms) ≡ ms * 1000
  pub decoded : (parsed : P) → platform.decode (platform.encode parsed) ≡ some parsed
