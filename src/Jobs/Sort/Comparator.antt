-- ===== src/Jobs/Sort/Comparator.antt =====
-- What `Array.prototype.sort` needs of a comparison, and how comparisons are chained.
use internship_pilot.Prelude.{
  ℕ, ◌≤◌, ◌<◌, ◌≡◌, ◌⊎◌, ◌↔◌, inl, inr, refl, arith, true, false, Option, List, [], ◌∷◌,
}
use internship_pilot.Prelude.Int.{ℤ, pos, negsuc, pos_part, neg_part}
use internship_pilot.Jobs.Sort.{
  compare_desc_nulls_last, compare_asc_nulls_last, text_lt, text_eq, or_next,
}

abbrev pub IsLt : ℤ → Type 0
IsLt z = 0 < neg_part z

abbrev pub IsLe : ℤ → Type 0
IsLe z = pos_part z ≤ 0

-- Swapping the arguments swaps the sign, and "not after" is transitive.
pub record IsComparator {A : Type 0} (cmp : A → A → ℤ) : Type 0 where
  pub flips : (a b : A) → (pos_part (cmp a b) ≤ 0) ↔ (neg_part (cmp b a) ≤ 0)
  pub transitive : (a b c : A) → IsLe (cmp a b) → IsLe (cmp b c) → IsLe (cmp a c)

pub nonzero_sides : (z : ℤ) → (pos_part z ≤ 0) ⊎ (neg_part z ≤ 0)
nonzero_sides (pos n) = inr (omega arith)
nonzero_sides (negsuc n) = inl (omega arith)

pub IsComparator-on :
    {A B : Type 0} (cmp : B → B → ℤ) (key : A → B)
    → IsComparator cmp
    → IsComparator (λ a b. cmp (key a) (key b))
IsComparator-on cmp key h = record {
  flips = λ a b. h.flips (key a) (key b);
  transitive = λ a b c. h.transitive (key a) (key b) (key c);
}

pub or_next_le : (x y : ℤ) → IsLe (or_next x y) ↔ (IsLe x × (neg_part x ≤ 0 → IsLe y))
or_next_le x y = (λ h. (ground arith, λ z. ground arith), λ h. ground arith)

or_next_ge :
    (x y : ℤ) → (neg_part (or_next x y) ≤ 0) ↔ ((neg_part x ≤ 0) × (IsLe x → neg_part y ≤ 0))
or_next_ge x y = (λ h. (ground arith, λ z. ground arith), λ h. ground arith)

module _ {A : Type 0} (c d : A → A → ℤ) (hc : IsComparator c) (hd : IsComparator d) where
  -- A second comparison that breaks the ties of a first one gives a comparison.
  pub IsComparator-or_next : IsComparator (λ a b. or_next (c a b) (d a b))
  IsComparator-or_next = record { flips = flips; transitive = transitive }
    where
      flips :
          (a b : A)
          → (pos_part (or_next (c a b) (d a b)) ≤ 0) ↔ (neg_part (or_next (c b a) (d b a)) ≤ 0)
      flips a b = (
        λ h.
            let (p, q) = (or_next_le (c a b) (d a b)).0 h in
            (or_next_ge (c b a) (d b a)).1
              ((hc.flips a b).0 p, λ z. (hd.flips a b).0 (q ((hc.flips b a).0 z))),
        λ h.
            let (p, q) = (or_next_ge (c b a) (d b a)).0 h in
            (or_next_le (c a b) (d a b)).1
              ((hc.flips a b).1 p, λ z. (hd.flips a b).1 (q ((hc.flips b a).1 z))),
      )

      transitive :
          (x y z : A)
          → IsLe (or_next (c x y) (d x y))
          → IsLe (or_next (c y z) (d y z))
          → IsLe (or_next (c x z) (d x z))
      transitive x y z p q =
          let (cxy, dxy) = (or_next_le (c x y) (d x y)).0 p in
          let (cyz, dyz) = (or_next_le (c y z) (d y z)).0 q in
          (or_next_le (c x z) (d x z)).1 (
            hc.transitive x y z cxy cyz,
            λ tie.
                let czx = (hc.flips z x).1 tie in
                hd.transitive x y z (dxy ((hc.flips y x).0 (hc.transitive y z x cyz czx)))
                  (dyz ((hc.flips z y).0 (hc.transitive z x y czx cxy))),
          )

pub desc-IsComparator : IsComparator compare_desc_nulls_last
unfolding compare_desc_nulls_last
desc-IsComparator = record { flips = flips; transitive = transitive }
  where
    flips :
        (a b : Option ℕ)
        → (pos_part (compare_desc_nulls_last a b) ≤ 0)
          ↔ (neg_part (compare_desc_nulls_last b a) ≤ 0)
    flips a b = (λ h. ground arith, λ h. ground arith)

    transitive :
        (a b c : Option ℕ)
        → IsLe (compare_desc_nulls_last a b)
        → IsLe (compare_desc_nulls_last b c)
        → IsLe (compare_desc_nulls_last a c)
    transitive a b c p q = ground arith

pub asc-IsComparator : IsComparator compare_asc_nulls_last
unfolding compare_asc_nulls_last
asc-IsComparator = record { flips = flips; transitive = transitive }
  where
    flips :
        (a b : Option ℕ)
        → (pos_part (compare_asc_nulls_last a b) ≤ 0) ↔ (neg_part (compare_asc_nulls_last b a) ≤ 0)
    flips a b = (λ h. ground arith, λ h. ground arith)

    transitive :
        (a b c : Option ℕ)
        → IsLe (compare_asc_nulls_last a b)
        → IsLe (compare_asc_nulls_last b c)
        → IsLe (compare_asc_nulls_last a c)
    transitive a b c p q = ground arith

-- The order of texts.
pub text_eq→eq : (xs ys : List ℕ) → text_eq xs ys ≡ true → xs ≡ ys
unfolding text_eq
text_eq→eq [] [] h = refl
text_eq→eq [] (y ∷ ys) h = cc
text_eq→eq (x ∷ xs) [] h = cc
text_eq→eq (x ∷ xs) (y ∷ ys) h = ground (arith, text_eq→eq xs ys)

pub text_lt_trans :
    (xs ys zs : List ℕ) → text_lt xs ys ≡ true → text_lt ys zs ≡ true → text_lt xs zs ≡ true
unfolding text_lt
text_lt_trans [] [] zs p q = cc
text_lt_trans [] (y ∷ ys) [] p q = cc
text_lt_trans [] (y ∷ ys) (z ∷ zs) p q = refl
text_lt_trans (x ∷ xs) [] zs p q = cc
text_lt_trans (x ∷ xs) (y ∷ ys) [] p q = cc
text_lt_trans (x ∷ xs) (y ∷ ys) (z ∷ zs) p q = ground (arith, text_lt_trans xs ys zs)

-- Exactly one of: equal, before, after.
pub text_tri :
    (xs ys : List ℕ)
    → ((text_eq xs ys ≡ true)
        × (text_lt xs ys ≡ false)
        × (text_lt ys xs ≡ false)
        × (text_eq ys xs ≡ true))
      ⊎ ((text_eq xs ys ≡ false)
          × (text_lt xs ys ≡ true)
          × (text_lt ys xs ≡ false)
          × (text_eq ys xs ≡ false))
      ⊎ ((text_eq xs ys ≡ false)
          × (text_lt xs ys ≡ false)
          × (text_lt ys xs ≡ true)
          × (text_eq ys xs ≡ false))
unfolding text_lt text_eq
text_tri [] [] = inl (refl, refl, refl, refl)
text_tri [] (y ∷ ys) = inr (inl (refl, refl, refl, refl))
text_tri (x ∷ xs) [] = inr (inr (refl, refl, refl, refl))
text_tri (x ∷ xs) (y ∷ ys) = ground (arith, text_tri xs ys)
