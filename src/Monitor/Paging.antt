-- ===== src/Monitor/Paging.antt =====
-- The pages of the list queries of workflow-monitor-bff/src: one row more than fits is asked for,
-- and its presence decides whether there is a cursor for the next page.
pub mod Keyset
pub mod Laws
use rochallor_engine.Base.{
  String, nat_eq, ◌&&◌, ◌||◌, ℕ, zero, suc, Bool, Option, none, some, List, [], ◌∷◌, ◌++◌,
  if◌then◌else◌, ltb, length, take,
}
use rochallor_engine.Monitor.Request.{Checked, ok, bad_request}

pub record Page (A T : Type 0) : Type 0 where
  pub items : List A
  pub next_cursor : Option T

-- `encodeCursor(items[items.length - 1], …)`. A page with a next cursor holds at least one item.
unfoldable pub last_cursor : {A T : Type 0} → (A → T) → List A → Option T
last_cursor encode [] = none
last_cursor encode (item ∷ []) = some (encode item)
last_cursor encode (item ∷ next ∷ items) = last_cursor encode (next ∷ items)

unfoldable pub slice_page : {A T : Type 0} → ℕ → (A → T) → List A → Page A T
unfolding last_cursor
slice_page limit encode rows = record {
  items = take limit rows;
  next_cursor = if ltb limit (length rows) then last_cursor encode (take limit rows) else none;
}

-- What a reader collects who follows the cursors from page to page. `none` means that a request
-- was refused, or that there were more pages than `fuel`.
unfoldable pub read_all :
    {A T : Type 0} → (Option T → Checked (Page A T)) → ℕ → Option T → Option (List A)
read_all page zero cursor = none
read_all page (suc fuel) cursor = elim (page cursor) [
  | bad_request message ↦ none
  | ok p ↦ elim p.next_cursor [
    | none ↦ some p.items
    | some next ↦ elim (read_all page fuel (some next)) [
      | none ↦ none
      | some items ↦ some (p.items ++ items)
    ]
  ]
]

-- `(time, id) < (instant, other)` on rows of the database.
unfoldable pub key_before : (String → String → Bool) → ℕ → String → ℕ → String → Bool
key_before id_before time id instant other =
    ltb time instant || nat_eq time instant && id_before id other
