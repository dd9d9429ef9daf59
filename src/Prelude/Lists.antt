-- ===== src/Prelude/Lists.antt =====
-- Lists measured by native numbers, and tests over a list, under the library's names.
use Prim.Native.Nat.{ℕ, zero, suc, ◌≤◌}
use Prim.Native.String.{String}
use mathlib.Core.Bool.{Bool, true, false, ◌||◌, ◌&&◌, true≢false}
use mathlib.Core.List.{List, [], ◌∷◌}
use mathlib.Core.Option.{Option, none, some, some-injective}
use native.Mathlib.Omega.{arith}
use mathlib.Core.Path.{◌≡◌, sym, ap, ◌∙◌, subst}
use mathlib.Core.Logic.{◌⊎◌, inl, inr}
use internship_pilot.Prelude.Tests.{if◌then◌else◌, str_eq, Bool-cases}

module _ {ℓ} {A : Type ℓ} where
  abbrev pub length : List A → ℕ
  length [] = 0
  length (x ∷ xs) = suc (length xs)

  abbrev pub take : ℕ → List A → List A
  take zero xs = []
  take (suc n) [] = []
  take (suc n) (x ∷ xs) = x ∷ take n xs

  -- `xs.filter(p)`.
  abbrev pub keep : (A → Bool) → List A → List A
  keep p [] = []
  keep p (x ∷ xs) = if p x then x ∷ keep p xs else keep p xs

  -- `xs.some(p)`.
  abbrev pub any : (A → Bool) → List A → Bool
  any p [] = false
  any p (x ∷ xs) = p x || any p xs

  abbrev pub all : (A → Bool) → List A → Bool
  all p [] = true
  all p (x ∷ xs) = p x && all p xs

  -- `xs.find(p)`.
  abbrev pub find : (A → Bool) → List A → Option A
  find p [] = none
  find p (x ∷ xs) = if p x then some x else find p xs

  abbrev pub All {κ} : (A → Type κ) → List A → Type κ
  All P [] = Unit
  All P (x ∷ xs) = P x × All P xs

  pub find-none : (p : A → Bool) (xs : List A) → find p xs ≡ none → All (λ x. p x ≡ false) xs
  find-none p [] e = tt
  find-none p (x ∷ xs) e = elim (Bool-cases (p x)) [
    | inl h ↦ let e' = rw h at e in cc
    | inr h ↦ (h, find-none p xs (rw h at e))
  ]

  pub All-of_keep :
      (P : A → Type 0) (q : A → Bool) (xs : List A)
      → All P (keep q xs)
      → All (λ x. q x ≡ true → P x) xs
  All-of_keep P q [] h = tt
  All-of_keep P q (x ∷ xs) h = elim (Bool-cases (q x)) [
    | inl y ↦
        let (p, rest) : P x × All P (keep q xs) = rw y at h in (λ _. p, All-of_keep P q xs rest)
    | inr n ↦ (λ y. absurd (true≢false (sym y ∙ n)), All-of_keep P q xs (rw n at h))
  ]

  pub length-keep : (p : A → Bool) (xs : List A) → length (keep p xs) ≤ length xs
  length-keep p [] = omega arith
  length-keep p (x ∷ xs) = ground (arith, length-keep p xs)

  pub All-take : (P : A → Type 0) (n : ℕ) (xs : List A) → All P xs → All P (take n xs)
  All-take P zero xs h = tt
  All-take P (suc n) [] h = tt
  All-take P (suc n) (x ∷ xs) (p, h) = (p, All-take P n xs h)

  pub All-keep :
      (P : A → Type 0) (q : A → Bool) (xs : List A)
      → All P xs
      → All (λ x. P x × (q x ≡ true)) (keep q xs)
  All-keep P q [] h = tt
  All-keep P q (x ∷ xs) (p, h) = elim (Bool-cases (q x)) [
    | inl y ↦ rw y ((p, y), All-keep P q xs h)
    | inr n ↦ rw n (All-keep P q xs h)
  ]

  pub All-map : (P Q : A → Type 0) (xs : List A) → ((x : A) → P x → Q x) → All P xs → All Q xs
  All-map P Q [] f h = tt
  All-map P Q (x ∷ xs) f (p, h) = (f x p, All-map P Q xs f h)

module _ {A : Type 0} where
  abbrev pub OneOf : A → List A → Type 0
  OneOf x [] = ⊥
  OneOf x (y ∷ ys) = (x ≡ y) ⊎ OneOf x ys

  pub All-OneOf : (P : A → Type 0) (xs : List A) (x : A) → All P xs → OneOf x xs → P x
  All-OneOf P [] x h one = absurd one
  All-OneOf P (y ∷ ys) x (p, h) (inl e) = subst P (sym e) p
  All-OneOf P (y ∷ ys) x (p, h) (inr later) = All-OneOf P ys x h later

  pub find-OneOf :
      (p : A → Bool) (xs : List A) (x : A) → find p xs ≡ some x → OneOf x xs × (p x ≡ true)
  find-OneOf p [] x e = cc
  find-OneOf p (y ∷ ys) x e = elim (Bool-cases (p y)) [
    | inl h ↦ let same : x ≡ y = sym (some-injective _ _ (rw h at e)) in (inl same, ap p same ∙ h)
    | inr h ↦ let (one, q) = find-OneOf p ys x (rw h at e) in (inr one, q)
  ]

  pub OneOf-keep :
      (q : A → Bool) (xs : List A) (x : A) → OneOf x (keep q xs) → OneOf x xs × (q x ≡ true)
  OneOf-keep q [] x h = absurd h
  OneOf-keep q (y ∷ ys) x h = elim (Bool-cases (q y)) [
    | inl g ↦ here g (OneOf-keep q ys x) (rw g at h)
    | inr g ↦ let (one, k) = OneOf-keep q ys x (rw g at h) in (inr one, k)
  ]
    where
      here :
          q y ≡ true
          → (OneOf x (keep q ys) → OneOf x ys × (q x ≡ true))
          → (x ≡ y) ⊎ OneOf x (keep q ys)
          → OneOf x (y ∷ ys) × (q x ≡ true)
      here g later (inl e) = (inl e, ap q e ∙ g)
      here g later (inr m) = let (one, k) = later m in (inr one, k)

-- `xs.includes(k)`.
abbrev pub includes : List String → String → Bool
includes [] k = false
includes (x ∷ xs) k = str_eq x k || includes xs k
