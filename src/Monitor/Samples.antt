-- ===== src/Monitor/Samples.antt =====
-- A platform for the tests of workflow-monitor-bff/src: a time is written as a fraction of the
-- first second, in as many digits as there are milliseconds, and cursors are kept as they are.
use rochallor_engine.Base.{
  ℕ, zero, suc, Bool, code, ltb, ◌-◌, ◌*◌, String, true, some, List, [], ◌∷◌, ◌≡◌, refl, ap, arith,
  ◌∙◌,
}
use rochallor_engine.Monitor.Paging.Keyset.{IsOrder}
use rochallor_engine.Monitor.Request.{
  UtcDate, Platform, IsPlatform, digits_then_z, exec_pattern, read_digits, read_field,
  fraction_then_z, same_fields, is_utc_timestamp, date_parse,
}

append : String → String → String
append String.[] t = t
append (String.◌∷◌ c s) t = String.◌∷◌ c (append s t)

ones_then_z : ℕ → String
ones_then_z zero = "Z"
ones_then_z (suc n) = String.◌∷◌ "1" (ones_then_z n)

unfoldable pub iso : ℕ → String
unfolding append ones_then_z
iso ms = append "1970-01-01T00:00:00." (ones_then_z (suc ms))

count : String → ℕ
count String.[] = 0
count (String.◌∷◌ c s) = suc (count s)

count-ones_then_z : (n : ℕ) → count (ones_then_z n) ≡ suc n
unfolding count ones_then_z
count-ones_then_z zero = refl
count-ones_then_z (suc n) = ap suc (count-ones_then_z n)

unfoldable pub millis : String → ℕ
unfolding count
millis s = count s - 22

millis-iso : (ms : ℕ) → millis (iso ms) ≡ ms
unfolding millis iso append count ones_then_z
millis-iso ms =
    ap
      (λ n.
        suc (
          suc (
            suc (
              suc (
                suc (
                  suc (
                    suc (
                      suc (
                        suc (
                          suc (
                            suc (
                              suc (suc (suc (suc (suc (suc (suc (suc (suc (suc n))))))))))))))))))))
        - 22)
      (count-ones_then_z ms)
    ∙ omega arith

digits_then_z-ones_then_z : (n : ℕ) → digits_then_z (ones_then_z (suc n)) ≡ true
unfolding digits_then_z ones_then_z
digits_then_z-ones_then_z zero = refl
digits_then_z-ones_then_z (suc n) = ground (arith, digits_then_z-ones_then_z n)

abbrev pub utc : ℕ → UtcDate
utc ms = record { time = ms; year = 1970; month = 1; day = 1; hours = 0; minutes = 0; seconds = 0 }

abbrev pub platform_of : {P K : Type 0} → (K → String) → Platform P P K
platform_of digest = record {
  date = λ s. some (utc (millis s));
  number = λ s. some 2;
  to_iso_string = iso;
  timestamptz = λ s. millis s * 1000;
  digest = digest;
  encode = λ p. p;
  decode = λ t. some t;
}

is_utc_timestamp-iso :
    (P : Type 0) {K : Type 0} (digest : K → String) (ms : ℕ)
    → is_utc_timestamp (platform_of {P = P} digest) (iso ms) ≡ true
unfolding is_utc_timestamp iso append exec_pattern read_digits read_field fraction_then_z
    same_fields
is_utc_timestamp-iso P digest ms = rw (digits_then_z-ones_then_z ms) refl

pub platform_of-IsPlatform :
    (P : Type 0) {K : Type 0} (digest : K → String) → IsPlatform (platform_of {P = P} digest)
unfolding date_parse
platform_of-IsPlatform P digest = record {
  iso_parsed = λ ms. ap some (millis-iso ms);
  iso_utc = is_utc_timestamp-iso P digest;
  iso_instant = λ ms. ap (λ n. n * 1000) (millis-iso ms);
  decoded = λ p. refl;
}

unfoldable pub first_status : List String → String
first_status [] = "none"
first_status (s ∷ ss) = s

unfoldable pub first_code : String → ℕ
first_code String.[] = 0
first_code (String.◌∷◌ c s) = code c

-- The order of texts of one character.
abbrev pub id_before : String → String → Bool
id_before a b = ltb (first_code a) (first_code b)

pub id_before-IsOrder : IsOrder id_before
id_before-IsOrder a b h = ground arith
