-- ===== src/Database/Memory.antt =====
-- A table in memory: the keys in use and the rows under them. It meets the interface `Table`.
use internship_pilot.Prelude.{
  ◌≡◌, refl, arith, Bool, true, false, ◌||◌, Option, none, some, List, [], ◌∷◌, str_eq, eq_iff,
  if◌then◌else◌, String, includes, inl, inr, Bool-cases, Option-cases, All, is_some,
}
use internship_pilot.Database.{Table, hits, patched, kept}

pub record Rows (Row : Type 0) : Type 0 where
  pub keys : List String
  pub look : String → Option Row

module _ {Row : Type 0} where
  abbrev pub get : String → Rows Row → Option Row
  get k t = if includes t.keys k then t.look k else none

  abbrev pub matches : (String → Row → Bool) → String → Option Row → Bool
  matches w k none = false
  matches w k (some r) = w k r

  abbrev pub first_of_keys : List String → (String → Row → Bool) → Rows Row → Option (String × Row)
  first_of_keys [] w t = none
  first_of_keys (k ∷ ks) w t =
      let rest = first_of_keys ks w t in
      elim (get k t) [ none ↦ rest | some r ↦ if w k r then some (k, r) else rest ]

  abbrev pub extend :
      (String → Row → Bool) → String → Option Row → List (String × Row) → List (String × Row)
  extend w k none rest = rest
  extend w k (some r) rest = if w k r then (k, r) ∷ rest else rest

  abbrev pub all_of_keys : List String → (String → Row → Bool) → Rows Row → List (String × Row)
  all_of_keys [] w t = []
  all_of_keys (k ∷ ks) w t = extend w k (get k t) (all_of_keys ks w t)

  abbrev pub clashes : List String → (Row → Row → Bool) → Row → Rows Row → Bool
  clashes [] clash r t = false
  clashes (k ∷ ks) clash r t =
      let rest = clashes ks clash r t in elim (get k t) [ none ↦ rest | some s ↦ clash r s || rest ]

  abbrev pub insert : (Row → Row → Bool) → String → Row → Rows Row → Option (Rows Row)
  insert clash k r t =
      if is_some (get k t) || clashes t.keys clash r t
      then none
      else some (record { keys = k ∷ t.keys; look = λ j. if str_eq j k then some r else get j t })

  pub first_sound :
      (ks : List String) (w : String → Row → Bool) (t : Rows Row) (k : String) (r : Row)
      → first_of_keys ks w t ≡ some (k, r)
      → (get k t ≡ some r) × (w k r ≡ true)
  first_sound [] w t k r e = cc
  first_sound (j ∷ ks) w t k r e = elim (Option-cases (get j t)) [
    | inl n ↦ first_sound ks w t k r (ground arith)
    | inr (s, h) ↦ elim (Bool-cases (w j s)) [
      | inl y ↦ ground (arith)
      | inr n ↦ first_sound ks w t k r (ground arith)
    ]
  ]

  pub first_none :
      (ks : List String) (w : String → Row → Bool) (t : Rows Row) (k : String) (r : Row)
      → first_of_keys ks w t ≡ none
      → includes ks k ≡ true
      → get k t ≡ some r
      → w k r ≡ false
  first_none [] w t k r e i g = cc
  first_none (j ∷ ks) w t k r e i g = ground (arith, eq_iff j k, first_none ks w t k r)

  pub keys_sound :
      (ks : List String) (w : String → Row → Bool) (t : Rows Row)
      → All (λ p. (get p.0 t ≡ some p.1) × (w p.0 p.1 ≡ true)) (all_of_keys ks w t)
  keys_sound [] w t = tt
  keys_sound (j ∷ ks) w t = go (get j t) refl (keys_sound ks w t)
    where
      go :
          (o : Option Row)
          → get j t ≡ o
          → All (λ p. (get p.0 t ≡ some p.1) × (w p.0 p.1 ≡ true)) (all_of_keys ks w t)
          → All
              (λ p. (get p.0 t ≡ some p.1) × (w p.0 p.1 ≡ true))
              (extend w j o (all_of_keys ks w t))
      go none e h = h
      go (some s) e h = elim (Bool-cases (w j s)) [ inl y ↦ rw y ((e, y), h) | inr n ↦ rw n h ]

  pub fresh :
      (ks : List String) (clash : Row → Row → Bool) (r : Row) (t : Rows Row) (j : String) (s : Row)
      → clashes ks clash r t ≡ false
      → includes ks j ≡ true
      → get j t ≡ some s
      → clash r s ≡ false
  fresh [] clash r t j s c i g = cc
  fresh (k ∷ ks) clash r t j s c i g = ground (arith, eq_iff k j, fresh ks clash r t j s)

  pub includes_of_get :
      (t : Rows Row) (k : String) (r : Row) → get k t ≡ some r → includes t.keys k ≡ true
  includes_of_get t k r g = ground arith

  pub insert-get :
      (clash : Row → Row → Bool) (k : String) (r : Row) (t u : Rows Row) (j : String)
      → insert clash k r t ≡ some u
      → get j u ≡ (if str_eq j k then some r else get j t)
  insert-get clash k r t u j e = ground (arith, eq_iff j k, eq_iff k j)

  pub insert_fresh :
      (clash : Row → Row → Bool) (k : String) (r : Row) (t u : Rows Row) (j : String) (s : Row)
      → insert clash k r t ≡ some u
      → get j t ≡ some s
      → clash r s ≡ false
  insert_fresh clash k r t u j s e g =
      fresh t.keys clash r t j s (ground arith) (includes_of_get t j s g) g

  pub insert_new_key :
      (clash : Row → Row → Bool) (k : String) (r : Row) (t u : Rows Row)
      → insert clash k r t ≡ some u
      → get k t ≡ none
  insert_new_key clash k r t u e = ground arith

  abbrev pub change : String → (Option Row → Option Row) → Rows Row → Rows Row
  change k f t = record t { look = λ j. if str_eq j k then f (t.look j) else t.look j }

  pub change_at :
      (k : String) (f : Option Row → Option Row) (t : Rows Row) (j : String)
      → f none ≡ none
      → get j (change k f t) ≡ (if str_eq j k then f (get j t) else get j t)
  change_at k f t j e = ground arith

  pub change_all :
      (w : String → Row → Bool) (f : Row → Row) (t : Rows Row) (j : String)
      → get j (record t { look = λ j. patched (w j) f (t.look j) }) ≡ patched (w j) f (get j t)
  change_all w f t j = ground arith

abbrev pub memory : {Row : Type 0} → Table Row
memory {Row} = record {
  Tab = Rows Row;
  find_unique = get;
  find_first = λ w before t. first_of_keys t.keys w t;
  find_many = λ w t. all_of_keys t.keys w t;
  create = insert;
  update_at = λ k w f. change k (patched w f);
  count_at = λ k w t. hits w (get k t);
  update_many = λ w f t. record t { look = λ j. patched (w j) f (t.look j) };
  delete_at = λ k w. change k (kept w);
  find_first_sound = λ w before t k r e. first_sound t.keys w t k r e;
  find_first_none = λ w before t k r e g. first_none t.keys w t k r e (includes_of_get t k r g) g;
  find_many_sound = λ w t. keys_sound t.keys w t;
  create-find_unique = insert-get;
  create_fresh = insert_fresh;
  create_new_key = insert_new_key;
  update_at-find_unique = λ k w f t j. change_at k (patched w f) t j refl;
  count_at_hits = λ k w t. refl;
  update_many-find_unique = change_all;
  delete_at-find_unique = λ k w t j. change_at k (kept w) t j refl;
}

abbrev pub no_rows : {Row : Type 0} → Rows Row
no_rows = record { keys = []; look = λ k. none }
