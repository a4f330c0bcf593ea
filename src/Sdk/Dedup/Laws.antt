-- ===== src/Sdk/Dedup/Laws.antt =====
-- What the deduplication cache of workflow-sdk-node/src/runner/deduplication_cache.ts remembers.
use rochallor_engine.Base.{
  ℕ, ◌+◌, ◌≤◌, String, false, none, some, List, [], ◌∷◌, ◌≡◌, refl, ◌||◌, is_empty, lookup, insert,
  lookup-insert, keys, contains, arith, ◌==◌, ==_iff, ==_refl, if◌then◌else◌, ltb, Bool-cases, inl,
  inr, IsDistinct,
}
use rochallor_engine.Sdk.Dedup.{Cache, has, mark, seen_recently, sweep_entries, sweep}

-- An id that `seenRecently` records is reported again at every time within the window, and at no
-- time behind it.
pub seen_recently_again :
    (c : Cache) (now later : ℕ) (id : String)
    → is_empty id ≡ false
    → (seen_recently c now id).1 ≡ false
    → (seen_recently (seen_recently c now id).0 later id).1 ≡ ltb later (now + c.window_ms)
unfolding seen_recently
seen_recently_again c now later id text new =
    ground (arith, lookup-insert id id now c.seen_at, ==_refl id)

-- `has` looks at the time of one id only.
pub has-mark :
    (c : Cache) (now later : ℕ) (id other : String)
    → (id == other) ≡ false
    → has (mark c now id) later other ≡ has c later other
unfolding has mark
has-mark c now later id other apart = ground (arith, lookup-insert id other now c.seen_at)

lookup-absent :
    (id : String) (m : List (String × ℕ)) → contains (keys m) id ≡ false → lookup id m ≡ none
lookup-absent id [] h = refl
lookup-absent id ((k, seen) ∷ m) h = ground (arith, lookup-absent id m)

sweep_entries-absent :
    (window now : ℕ) (id : String) (m : List (String × ℕ))
    → contains (keys m) id ≡ false
    → lookup id (sweep_entries window now m) ≡ none
unfolding sweep_entries
sweep_entries-absent window now id [] h = refl
sweep_entries-absent window now id ((k, seen) ∷ m) h =
    ground (arith, sweep_entries-absent window now id m)

-- An entry that a sweep takes out would not be reported any more.
lookup-sweep_entries :
    (window now : ℕ) (id : String) (m : List (String × ℕ))
    → IsDistinct (keys m)
    → lookup id (sweep_entries window now m) ≡ elim (lookup id m) [
      | none ↦ none
      | some seen ↦ if ltb (seen + window) now then none else some seen
    ]
unfolding sweep_entries
lookup-sweep_entries window now id [] h = refl
lookup-sweep_entries window now id ((k, seen) ∷ m) h = elim (Bool-cases (k == id)) [
  | inl same ↦ ground (arith, ==_iff k id, sweep_entries-absent window now id m, lookup-absent id m)
  | inr other ↦ ground (arith, lookup-sweep_entries window now id m h.1)
]

-- A sweep changes no answer, at the time of the sweep or later.
pub has-sweep :
    (c : Cache) (now later : ℕ) (id : String)
    → IsDistinct (keys c.seen_at)
    → now ≤ later
    → has (sweep c now) later id ≡ has c later id
unfolding has sweep
has-sweep c now later id distinct h =
    ground (arith, lookup-sweep_entries c.window_ms now id c.seen_at distinct)

keys-insert :
    (id other : String) (now : ℕ) (m : List (String × ℕ))
    → contains (keys (insert id now m)) other ≡ contains (keys m) other || id == other
keys-insert id other now [] = ground arith
keys-insert id other now ((k, seen) ∷ m) = ground (arith, keys-insert id other now m, ==_iff k id)

IsDistinct-insert :
    (id : String) (now : ℕ) (m : List (String × ℕ))
    → IsDistinct (keys m)
    → IsDistinct (keys (insert id now m))
IsDistinct-insert id now [] h = (refl, tt)
IsDistinct-insert id now ((k, seen) ∷ m) h = elim (Bool-cases (k == id)) [
  | inl same ↦ rw same h
  | inr other ↦ rw other (
    ground (arith, keys-insert id k now m, ==_iff id k, ==_iff k id),
    IsDistinct-insert id now m h.1,
  )
]

-- The cache holds each id once, so the condition of `has-sweep` is kept.
pub mark-IsDistinct :
    (c : Cache) (now : ℕ) (id : String)
    → IsDistinct (keys c.seen_at)
    → IsDistinct (keys (mark c now id).seen_at)
unfolding mark
mark-IsDistinct c now id h = ground (arith, IsDistinct-insert id now c.seen_at h)
