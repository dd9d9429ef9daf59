-- ===== src/Database.antt =====
-- The database client (a package outside the repository), one table at a time: the queries that
-- the program sends, and what their documentation promises, as an interface. A table is observed
-- through `find_unique`. `Database.Memory` has a concrete table that meets the interface.
pub mod Memory
pub mod Laws
use internship_pilot.Prelude.{
  ℕ, ◌≡◌, Bool, true, false, Option, none, some, List, str_eq, if◌then◌else◌, String, All,
}

-- How many rows an update by primary key touches, and what it leaves.
abbrev pub hits : {Row : Type 0} → (Row → Bool) → Option Row → ℕ
hits w none = 0
hits w (some r) = if w r then 1 else 0

abbrev pub patched : {Row : Type 0} → (Row → Bool) → (Row → Row) → Option Row → Option Row
patched w f none = none
patched w f (some r) = some (if w r then f r else r)

abbrev pub kept : {Row : Type 0} → (Row → Bool) → Option Row → Option Row
kept w none = none
kept w (some r) = if w r then none else some r

pub record Table (Row : Type 0) : Type 1 where
  pub Tab : Type 0
  -- `findUnique({ where: { id } })`
  pub find_unique : String → Tab → Option Row
  -- `findFirst({ where, orderBy })`, with the row's primary key
  pub find_first : (String → Row → Bool) → (Row → Row → Bool) → Tab → Option (String × Row)
  -- `findMany({ where })`
  pub find_many : (String → Row → Bool) → Tab → List (String × Row)
  -- `create({ data })`; `none` is a violated unique constraint
  pub create : (Row → Row → Bool) → String → Row → Tab → Option Tab
  -- `updateMany({ where: { id, … }, data })`
  pub update_at : String → (Row → Bool) → (Row → Row) → Tab → Tab
  -- its `count`
  pub count_at : String → (Row → Bool) → Tab → ℕ
  -- `updateMany({ where, data })`
  pub update_many : (String → Row → Bool) → (Row → Row) → Tab → Tab
  -- `deleteMany({ where: { id, … } })`
  pub delete_at : String → (Row → Bool) → Tab → Tab
  pub find_first_sound :
      (w : String → Row → Bool) (before : Row → Row → Bool) (t : Tab) (k : String) (r : Row)
      → find_first w before t ≡ some (k, r)
      → (find_unique k t ≡ some r) × (w k r ≡ true)
  pub find_first_none :
      (w : String → Row → Bool) (before : Row → Row → Bool) (t : Tab) (k : String) (r : Row)
      → find_first w before t ≡ none
      → find_unique k t ≡ some r
      → w k r ≡ false
  pub find_many_sound :
      (w : String → Row → Bool) (t : Tab)
      → All (λ p. (find_unique p.0 t ≡ some p.1) × (w p.0 p.1 ≡ true)) (find_many w t)
  pub create-find_unique :
      (clash : Row → Row → Bool) (k : String) (r : Row) (t u : Tab) (j : String)
      → create clash k r t ≡ some u
      → find_unique j u ≡ (if str_eq j k then some r else find_unique j t)
  pub create_fresh :
      (clash : Row → Row → Bool) (k : String) (r : Row) (t u : Tab) (j : String) (s : Row)
      → create clash k r t ≡ some u
      → find_unique j t ≡ some s
      → clash r s ≡ false
  pub create_new_key :
      (clash : Row → Row → Bool) (k : String) (r : Row) (t u : Tab)
      → create clash k r t ≡ some u
      → find_unique k t ≡ none
  pub update_at-find_unique :
      (k : String) (w : Row → Bool) (f : Row → Row) (t : Tab) (j : String)
      → find_unique j (update_at k w f t)
        ≡ (if str_eq j k then patched w f (find_unique j t) else find_unique j t)
  pub count_at_hits :
      (k : String) (w : Row → Bool) (t : Tab) → count_at k w t ≡ hits w (find_unique k t)
  pub update_many-find_unique :
      (w : String → Row → Bool) (f : Row → Row) (t : Tab) (j : String)
      → find_unique j (update_many w f t) ≡ patched (w j) f (find_unique j t)
  pub delete_at-find_unique :
      (k : String) (w : Row → Bool) (t : Tab) (j : String)
      → find_unique j (delete_at k w t)
        ≡ (if str_eq j k then kept w (find_unique j t) else find_unique j t)

-- A property of every row of a table and its key.
abbrev pub Every : {Row : Type 0} (T : Table Row) → (String → Row → Type 0) → T.Tab → Type 0
Every {Row} T P t = (k : String) (r : Row) → T.find_unique k t ≡ some r → P k r
