-- ===== src/Monitor/Paging/Keyset.antt =====
-- Lists in the order of a key, newest first, and their pages behind a cursor.
use mathlib.Core.Path.{subst}
use rochallor_engine.Base.{
  ℕ, zero, suc, String, Bool, true, false, Option, none, some, List, [], ◌∷◌, ◌++◌, ◌&&◌, ◌≡◌, refl,
  ◌∙◌, ap, arith, All, All-append_split, filter_by, take, map, Bool-cases, inl, inr, length,
}
use rochallor_engine.Monitor.Request.{Checked, ok}
use rochallor_engine.Monitor.Paging.{Page, slice_page, read_all, key_before}
use rochallor_engine.Monitor.Paging.Laws.{read_all-eq}

pub map-take {ℓ κ} :
    {A : Type ℓ} {B : Type κ} (f : A → B) (n : ℕ) (xs : List A)
    → map f (take n xs) ≡ take n (map f xs)
map-take f zero xs = refl
map-take f (suc n) [] = refl
map-take f (suc n) (x ∷ xs) = ap (λ ys. f x ∷ ys) (map-take f n xs)

-- A cut of a mapped list comes from a cut of the list.
pub record Preimage {A B : Type 0} (f : A → B) (list : List A) (xs : List B) (x : B) (ys : List B)
    : Type 0 where
  pub before : List A
  pub item : A
  pub after : List A
  pub whole : list ≡ before ++ item ∷ after
  pub here : f item ≡ x
  pub later : map f after ≡ ys

pub preimage :
    {A B : Type 0} (f : A → B) (list : List A) (xs : List B) (x : B) (ys : List B)
    → map f list ≡ xs ++ x ∷ ys
    → Preimage f list xs x ys
preimage f [] [] x ys h = cc
preimage f [] (z ∷ xs) x ys h = cc
preimage f (a ∷ list) [] x ys h = record {
  before = [];
  item = a;
  after = list;
  whole = refl;
  here = cc (h);
  later = cc (h);
}
preimage f (a ∷ list) (z ∷ xs) x ys h =
    let rest : map f list ≡ xs ++ x ∷ ys = cc (h) in
    let p = preimage f list xs x ys rest in
    record {
      before = a ∷ p.before;
      item = p.item;
      after = p.after;
      whole = ap (λ zs. a ∷ zs) p.whole;
      here = p.here;
      later = p.later;
    }

module _ {A : Type 0} where
  pub filter_by-and :
      (p q : A → Bool) (xs : List A) → filter_by (λ x. p x && q x) xs ≡ filter_by q (filter_by p xs)
  filter_by-and p q [] = refl
  filter_by-and p q (x ∷ xs) = ground (arith, filter_by-and p q xs)

  filter_by-none :
      (q : A → Bool) (xs ys : List A)
      → All (λ x. q x ≡ false) xs
      → filter_by q (xs ++ ys) ≡ filter_by q ys
  filter_by-none q [] ys h = refl
  filter_by-none q (x ∷ xs) ys h = rw (h.0) (filter_by-none q xs ys h.1)

  filter_by-All : (q : A → Bool) (xs : List A) → All (λ x. q x ≡ true) xs → filter_by q xs ≡ xs
  filter_by-All q [] h = refl
  filter_by-All q (x ∷ xs) h = rw (h.0) (ap (λ ys. x ∷ ys) (filter_by-All q xs h.1))

  pub All-filter_by {κ} :
      (P : A → Type κ) (p : A → Bool) (xs : List A) → All P xs → All P (filter_by p xs)
  All-filter_by P p [] h = tt
  All-filter_by P p (x ∷ xs) h = elim (Bool-cases (p x)) [
    | inl kept ↦ rw kept (h.0, All-filter_by P p xs h.1)
    | inr out ↦ rw out (All-filter_by P p xs h.1)
  ]

pub All-take {ℓ κ} :
    {A : Type ℓ} (P : A → Type κ) (n : ℕ) (xs : List A) → All P xs → All P (take n xs)
All-take P zero xs h = tt
All-take P (suc n) [] h = tt
All-take P (suc n) (x ∷ xs) h = (h.0, All-take P n xs h.1)

-- Rows that a test lets through satisfy what the test implies.
pub All-filtered {ℓ κ} :
    {A : Type ℓ} (P : A → Type κ) (p : A → Bool)
    → ((x : A) → p x ≡ true → P x)
    → (xs : List A) → All P (filter_by p xs)
All-filtered P p sound [] = tt
All-filtered P p sound (x ∷ xs) = elim (Bool-cases (p x)) [
  | inl kept ↦ rw kept (sound x kept, All-filtered P p sound xs)
  | inr out ↦ rw out (All-filtered P p sound xs)
]

pub All-both {ℓ κ μ} :
    {A : Type ℓ} (P : A → Type κ) (Q : A → Type μ) (xs : List A)
    → All P xs
    → All Q xs
    → All (λ x. P x × Q x) xs
All-both P Q [] ps qs = tt
All-both P Q (x ∷ xs) ps qs = ((ps.0, qs.0), All-both P Q xs ps.1 qs.1)

pub member_of {ℓ κ} :
    {A : Type ℓ} (P : A → Type κ) (us : List A) (u : A) (vs : List A) → All P (us ++ u ∷ vs) → P u
member_of P us u vs h = (All-append_split P us (u ∷ vs) h).1.0

-- The order on ids is asymmetric.
abbrev pub IsOrder : (String → String → Bool) → Type 0
IsOrder id_before = (a b : String) → id_before a b ≡ true → id_before b a ≡ false

module _ {R : Type 0} (id_before : String → String → Bool) (time : R → ℕ) (name : R → String) where
  -- `row` comes later in the list than `first`.
  abbrev pub behind_row : R → R → Bool
  behind_row first row = key_before id_before (time row) (name row) (time first) (name first)

  -- `ORDER BY time DESC, id DESC`.
  abbrev pub IsNewestFirst : List R → Type 0
  IsNewestFirst [] = Unit
  IsNewestFirst (row ∷ rows) = All (λ r. behind_row row r ≡ true) rows × IsNewestFirst rows

  pub IsNewestFirst-filter_by :
      (p : R → Bool) (rows : List R) → IsNewestFirst rows → IsNewestFirst (filter_by p rows)
  IsNewestFirst-filter_by p [] h = tt
  IsNewestFirst-filter_by p (row ∷ rows) h = elim (Bool-cases (p row)) [
    | inl kept ↦ rw kept (
      All-filter_by (λ r. behind_row row r ≡ true) p rows h.0,
      IsNewestFirst-filter_by p rows h.1,
    )
    | inr out ↦ rw out (IsNewestFirst-filter_by p rows h.1)
  ]

  module _ (order : IsOrder id_before) where
    behind_row-asymm : (a b : R) → behind_row a b ≡ true → behind_row b a ≡ false
    unfolding key_before
    behind_row-asymm a b h = ground (arith, order (name b) (name a))

    behind_row_self : (a : R) → behind_row a a ≡ false
    unfolding key_before
    behind_row_self a = ground (arith, order (name a) (name a))

    split-IsNewestFirst :
        (us : List R) (u : R) (vs : List R)
        → IsNewestFirst (us ++ u ∷ vs)
        → All (λ r. behind_row u r ≡ false) us × All (λ r. behind_row u r ≡ true) vs
    split-IsNewestFirst [] u vs h = (tt, h.0)
    split-IsNewestFirst (a ∷ us) u vs h =
        let (newer, older) = split-IsNewestFirst us u vs h.1 in
        (
          (
            behind_row-asymm a u
                (All-append_split (λ r. behind_row a r ≡ true) us (u ∷ vs) h.0).1.0,
            newer,
          ),
          older,
        )

    -- What comes later than a row are the rows that stand behind it.
    filter_by-behind_row :
        (us : List R) (u : R) (vs : List R)
        → IsNewestFirst (us ++ u ∷ vs)
        → filter_by (behind_row u) (us ++ u ∷ vs) ≡ vs
    filter_by-behind_row us u vs h =
        let (newer, older) = split-IsNewestFirst us u vs h in
        filter_by-none (behind_row u) us (u ∷ vs) newer
        ∙ (rw (behind_row_self u) (filter_by-All (behind_row u) vs older))

    -- Where the first page starts the list and the page behind the cursor of a row starts the rows
    -- behind it, a reader of all pages gets the list. `P` is what is known of each row.
    module _ {κ} {I T : Type 0} (P : R → Type κ) (item : R → I) (encode : I → T)
        (page : Option T → Checked (Page I T)) (n : ℕ) (rows : List R)
        (next : (u : R)
          → P u
          → page (some (encode (item u)))
            ≡ ok (
                slice_page
                  (suc n)
                  encode
                  (take (suc (suc n)) (map item (filter_by (behind_row u) rows))))) where
      pub read_all-rows :
          IsNewestFirst rows
          → All P rows
          → page none ≡ ok (slice_page (suc n) encode (take (suc (suc n)) (map item rows)))
          → read_all page (suc (length (map item rows))) none ≡ some (map item rows)
      read_all-rows sorted known first =
          read_all-eq n encode page (map item rows)
            (λ xs x ys e.
              let p = preimage item rows xs x ys e in
              let later : filter_by (behind_row p.item) rows ≡ p.after =
                ap (filter_by (behind_row p.item)) p.whole
                ∙ filter_by-behind_row p.before p.item p.after
                    (subst IsNewestFirst p.whole sorted) in
              subst
                (λ (y : I).
                  page (some (encode y)) ≡ ok (slice_page (suc n) encode (take (suc (suc n)) ys)))
                p.here
                (next p.item (member_of P p.before p.item p.after (subst (All P) p.whole known))
                  ∙ ap (λ zs. ok (slice_page (suc n) encode (take (suc (suc n)) zs)))
                      (ap (map item) later ∙ p.later)))
            first
