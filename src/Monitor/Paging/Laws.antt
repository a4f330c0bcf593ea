-- ===== src/Monitor/Paging/Laws.antt =====
-- Following the cursors reads the whole list: each item once, in order, and the pages end.
use mathlib.Core.List.{append_assoc}
use rochallor_engine.Base.{
  ℕ, zero, suc, ◌≤◌, ◌<◌, true, false, Option, none, some, List, [], ◌∷◌, ◌++◌, ◌≡◌, refl, sym, ◌∙◌,
  ap, arith, length, take, ltb, length-append, Bool-cases, inl, inr, ltb_iff,
}
use rochallor_engine.Monitor.Request.{Checked, ok}
use rochallor_engine.Monitor.Paging.{Page, last_cursor, slice_page, read_all}

take_of_length-le {ℓ} : {A : Type ℓ} (n : ℕ) (xs : List A) → length xs ≤ n → take n xs ≡ xs
take_of_length-le zero [] h = refl
take_of_length-le zero (x ∷ xs) h = absurd (omega arith)
take_of_length-le (suc n) [] h = refl
take_of_length-le (suc n) (x ∷ xs) h = ap (λ ys. x ∷ ys) (take_of_length-le n xs (omega arith))

pub take-take {ℓ} : {A : Type ℓ} (n : ℕ) (xs : List A) → take n (take (suc n) xs) ≡ take n xs
take-take zero xs = refl
take-take (suc n) [] = refl
take-take (suc n) (x ∷ xs) = ap (λ ys. x ∷ ys) (take-take n xs)

lt-length-take {ℓ} :
    {A : Type ℓ} (n : ℕ) (xs : List A) → n < length xs → n < length (take (suc n) xs)
lt-length-take zero [] h = absurd (omega arith)
lt-length-take zero (x ∷ xs) h = omega arith
lt-length-take (suc n) [] h = absurd (omega arith)
lt-length-take (suc n) (x ∷ xs) h = omega (arith, lt-length-take n xs (omega arith))

-- One item more tells whether there are more.
pub ltb-length-take {ℓ} :
    {A : Type ℓ} (n : ℕ) (xs : List A) → ltb n (length (take (suc n) xs)) ≡ ltb n (length xs)
ltb-length-take zero [] = refl
ltb-length-take zero (x ∷ xs) = ground arith
ltb-length-take (suc n) [] = refl
ltb-length-take (suc n) (x ∷ xs) = ground (arith, ltb-length-take n xs)

-- A full page ends with an item, and the rest of the list stands behind it.
record Cut {A : Type 0} (n : ℕ) (xs : List A) : Type 0 where
  front : List A
  item : A
  rest : List A
  page : take (suc n) xs ≡ front ++ item ∷ []
  whole : xs ≡ front ++ item ∷ rest

cut : {A : Type 0} (n : ℕ) (xs : List A) → n < length xs → Cut n xs
cut n [] h = absurd (omega arith)
cut zero (x ∷ xs) h = record { front = []; item = x; rest = xs; page = refl; whole = refl }
cut (suc n) (x ∷ xs) h =
    let c = cut n xs (omega arith) in
    record {
      front = x ∷ c.front;
      item = c.item;
      rest = c.rest;
      page = ap (λ ys. x ∷ ys) c.page;
      whole = ap (λ ys. x ∷ ys) c.whole;
    }

last_cursor-append :
    {A T : Type 0} (encode : A → T) (xs : List A) (x : A)
    → last_cursor encode (xs ++ x ∷ []) ≡ some (encode x)
unfolding last_cursor
last_cursor-append encode [] x = refl
last_cursor-append encode (y ∷ []) x = refl
last_cursor-append encode (y ∷ z ∷ xs) x = last_cursor-append encode (z ∷ xs) x

-- The page that starts a list: the list itself if it fits, and a cut with its cursor if not.
slice_page-fits :
    {A T : Type 0} (n : ℕ) (encode : A → T) (xs : List A)
    → length xs ≤ n
    → slice_page n encode (take (suc n) xs) ≡ record { items = xs; next_cursor = none }
unfolding slice_page
slice_page-fits n encode xs h =
    rw (take_of_length-le (suc n) xs (omega arith), take_of_length-le n xs h, no_more) refl
  where
    no_more : ltb n (length xs) ≡ false
    no_more = ground arith

slice_page-Cut :
    {A T : Type 0} (n : ℕ) (encode : A → T) (xs : List A) (c : Cut n xs)
    → suc n < length xs
    → slice_page (suc n) encode (take (suc (suc n)) xs)
      ≡ record { items = c.front ++ c.item ∷ []; next_cursor = some (encode c.item) }
unfolding slice_page
slice_page-Cut n encode xs c h =
    rw (more, take-take (suc n) xs, c.page, last_cursor-append encode c.front c.item) refl
  where
    more : ltb (suc n) (length (take (suc (suc n)) xs)) ≡ true
    more = (ltb_iff _ _).1 (lt-length-take (suc n) xs h)

module _ {A T : Type 0} (page : Option T → Checked (Page A T)) (fuel : ℕ) (cursor : Option T) where
  read_all-last :
      (items : List A)
      → page cursor ≡ ok (record { items = items; next_cursor = none })
      → read_all page (suc fuel) cursor ≡ some items
  unfolding read_all
  read_all-last items here = rw (here, read_all) refl

  read_all-more :
      (items : List A) (next : T) (later : List A)
      → page cursor ≡ ok (record { items = items; next_cursor = some next })
      → read_all page fuel (some next) ≡ some later
      → read_all page (suc fuel) cursor ≡ some (items ++ later)
  unfolding read_all
  read_all-more items next later here rest = rw (here, read_all) (rw (rest, read_all) refl)

split-behind :
    {A : Type 0} {list : List A} (seen suffix front : List A) (item : A) (rest : List A)
    → list ≡ seen ++ suffix
    → suffix ≡ front ++ item ∷ rest
    → list ≡ (seen ++ front) ++ item ∷ rest
split-behind seen suffix front item rest whole split =
    whole ∙ (ap (λ ys. seen ++ ys) split ∙ sym (append_assoc seen front (item ∷ rest)))

module _ {A T : Type 0} (n : ℕ) (encode : A → T) (page : Option T → Checked (Page A T))
    (list : List A)
    (next : (xs : List A) (x : A) (ys : List A)
      → list ≡ xs ++ x ∷ ys
      → page (some (encode x)) ≡ ok (slice_page (suc n) encode (take (suc (suc n)) ys))) where
  read_from :
      (fuel : ℕ) (cursor : Option T) (seen suffix : List A)
      → list ≡ seen ++ suffix
      → page cursor ≡ ok (slice_page (suc n) encode (take (suc (suc n)) suffix))
      → length suffix < fuel
      → read_all page fuel cursor ≡ some suffix
  read_from zero cursor seen suffix whole here h = absurd (omega arith)
  read_from (suc fuel) cursor seen suffix whole here h =
      elim (Bool-cases (ltb (suc n) (length suffix))) [
        | inr fits ↦
            read_all-last page fuel cursor suffix
              (here ∙ ap ok (slice_page-fits (suc n) encode suffix (ground arith)))
        | inl more ↦
            let long = (ltb_iff _ _).0 more in
            let c = cut n suffix (omega (arith, long)) in
            let front = seen ++ c.front in
            let split = split-behind seen suffix c.front c.item c.rest whole c.whole in
            let later =
              read_from fuel (some (encode c.item)) (front ++ c.item ∷ []) c.rest
                (split ∙ sym (append_assoc front (c.item ∷ []) c.rest))
                (next front c.item c.rest split)
                (omega (arith, ap length c.whole, length-append c.front (c.item ∷ c.rest))) in
            read_all-more page fuel cursor (c.front ++ c.item ∷ []) (encode c.item) c.rest
              (here ∙ ap ok (slice_page-Cut n encode suffix c long)) later
            ∙ (ap some (append_assoc c.front (c.item ∷ []) c.rest ∙ sym c.whole))
      ]

  -- Where the first page starts the list and the page behind an item's cursor starts what stands
  -- behind the item, a reader gets the list.
  pub read_all-eq :
      page none ≡ ok (slice_page (suc n) encode (take (suc (suc n)) list))
      → read_all page (suc (length list)) none ≡ some list
  read_all-eq first = read_from (suc (length list)) none [] list refl first (omega arith)
