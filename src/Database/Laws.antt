-- ===== src/Database/Laws.antt =====
-- What a query by primary key does to a row that is known.
use internship_pilot.Prelude.{
  ◌≡◌, refl, sym, arith, Bool, true, Option, none, some, String, str_eq, str_eq_refl, ◌∙◌, subst,
  inl, inr, Bool-cases, eq_iff,
}
use mathlib.Core.Option.{some-injective}
use internship_pilot.Database.{Table, patched, kept, Every}

module _ {Row : Type 0} (T : Table Row) where
  open T use {Tab, find_unique, create, update_at, count_at, delete_at, update_many}

  pub update_at_self :
      (k : String) (w : Row → Bool) (f : Row → Row) (t : Tab)
      → find_unique k (update_at k w f t) ≡ patched w f (find_unique k t)
  update_at_self k w f t = T.update_at-find_unique k w f t k ∙ rw (str_eq_refl k)

  pub delete_at_self :
      (k : String) (w : Row → Bool) (t : Tab)
      → find_unique k (delete_at k w t) ≡ kept w (find_unique k t)
  delete_at_self k w t = T.delete_at-find_unique k w t k ∙ rw (str_eq_refl k)

  pub create_self :
      (clash : Row → Row → Bool) (k : String) (r : Row) (t u : Tab)
      → create clash k r t ≡ some u
      → find_unique k u ≡ some r
  create_self clash k r t u e = T.create-find_unique clash k r t u k e ∙ rw (str_eq_refl k)

  abbrev Holds : (Row → Type 0) → Option Row → Type 0
  Holds P o = (r : Row) → o ≡ some r → P r

  patched-Holds :
      (P : Row → Type 0) (w : Row → Bool) (f : Row → Row) (o : Option Row)
      → ((r : Row) → o ≡ some r → w r ≡ true → P r → P (f r))
      → Holds P o
      → Holds P (patched w f o)
  patched-Holds P w f none step h r e = cc
  patched-Holds P w f (some s) step h r e = elim (Bool-cases (w s)) [
    | inl y ↦ subst P (some-injective _ _ (rw y at e)) (step s refl y (h s refl))
    | inr n ↦ subst P (some-injective _ _ (rw n at e)) (h s refl)
  ]

  kept-some : (w : Row → Bool) (o : Option Row) (r : Row) → kept w o ≡ some r → o ≡ some r
  kept-some w none r e = e
  kept-some w (some s) r e = ground arith

  module _ (P : String → Row → Type 0) where
    -- A change that respects a property of rows respects it for the table.
    pub Every-update_at :
        (k : String) (w : Row → Bool) (f : Row → Row) (t : Tab)
        → ((r : Row) → find_unique k t ≡ some r → w r ≡ true → P k r → P k (f r))
        → Every T P t
        → Every T P (update_at k w f t)
    Every-update_at k w f t step h j =
        rw (T.update_at-find_unique k w f t j) (elim (Bool-cases (str_eq j k)) [
          | inl same ↦ rw same (
              subst (λ i. Holds (P i) (patched w f (find_unique i t))) (sym ((eq_iff j k).0 same))
                (patched-Holds (P k) w f (find_unique k t) step (h k)))
          | inr differs ↦ rw differs (h j)
        ])

    pub Every-update_many :
        (w : String → Row → Bool) (f : Row → Row) (t : Tab)
        → ((j : String) (r : Row) → w j r ≡ true → P j r → P j (f r))
        → Every T P t
        → Every T P (update_many w f t)
    Every-update_many w f t step h j =
        rw (T.update_many-find_unique w f t j)
          (patched-Holds (P j) (w j) f (find_unique j t) (λ r e. step j r) (h j))

    pub Every-create :
        (clash : Row → Row → Bool) (k : String) (r : Row) (t u : Tab)
        → create clash k r t ≡ some u
        → P k r
        → Every T P t
        → Every T P u
    Every-create clash k r t u c p h j =
        rw (T.create-find_unique clash k r t u j c) (elim (Bool-cases (str_eq j k)) [
          | inl same ↦ rw same (λ s e.
              subst (λ i. P i s) (sym ((eq_iff j k).0 same)) (subst (P k) (some-injective _ _ e) p))
          | inr differs ↦ rw differs (h j)
        ])

    pub Every-delete_at :
        (k : String) (w : Row → Bool) (t : Tab) → Every T P t → Every T P (delete_at k w t)
    Every-delete_at k w t h j =
        rw (T.delete_at-find_unique k w t j) (elim (Bool-cases (str_eq j k)) [
          | inl same ↦ rw same (λ r e. h j r (kept-some w (find_unique j t) r e))
          | inr differs ↦ rw differs (h j)
        ])
