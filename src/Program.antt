-- ===== src/Program.antt =====
-- Asynchronous code that changes a state and may throw: an action returns a value or a failure, and
-- what was written before a failure stays written. `keeps` rules carry an invariant through it.
use internship_pilot.Prelude.{◌≡◌, refl, ap, ℕ, List, [], ◌∷◌, String, All}

-- What is thrown: a `MatchError` with its code and HTTP status, a database error with its code
-- (`P2002` is a violated unique constraint, `P2025` a missing record), a `TypeError`, anything else.
pub data Failure : Type 0 where
  match_error : String → ℕ → Failure
  database : String → Failure
  type_error : Failure
  other : String → Failure

pub data Result (A : Type 0) : Type 0 where
  ok : A → Result A
  err : Failure → Result A

abbrev pub Program : Type 0 → Type 0 → Type 0
Program S A = S → Result A × S

infixl 5 ◌>>=◌ ◌>>◌
abbrev pub ◌>>=◌ : {S A B : Type 0} → Program S A → (A → Program S B) → Program S B
◌>>=◌ m f s = elim (m s).0 [ ok a ↦ f a (m s).1 | err e ↦ (err e, (m s).1) ]

abbrev pub ◌>>◌ : {S A B : Type 0} → Program S A → Program S B → Program S B
m >> k = m >>= λ _. k

abbrev pub return : {S A : Type 0} → A → Program S A
return a s = (ok a, s)

abbrev pub throw : {S A : Type 0} → Failure → Program S A
throw e s = (err e, s)

-- `try { m } catch (error) { handle(error) }`
abbrev pub catch : {S A : Type 0} → Program S A → (Failure → Program S A) → Program S A
catch m handle s = elim (m s).0 [ ok a ↦ (ok a, (m s).1) | err e ↦ handle e (m s).1 ]

-- `for (const item of items) await body(item)`
unfoldable pub each : {S A : Type 0} → (A → Program S (Unit {0})) → List A → Program S (Unit {0})
each body [] = return tt
each body (x ∷ xs) = body x >> each body xs

module _ {S : Type 0} (P : S → Type 0) where
  -- Whether it returns or throws, the action leaves a state that has the property.
  abbrev pub Keeps : {A : Type 0} → Program S A → Type 0
  Keeps m = (s : S) → P s → P (m s).1

  pub Keeps-bind :
      {A B : Type 0} (m : Program S A) (f : A → Program S B)
      → Keeps m
      → ((a : A) → Keeps (f a))
      → Keeps (m >>= f)
  Keeps-bind {A} {B} m f h k s p = go (m s) (h s p)
    where
      go : (r : Result A × S) → P r.1 → P (◌>>=◌ (λ _. r) f s).1
      go (ok a, t) q = k a t q
      go (err e, t) q = q

  pub Keeps-catch :
      {A : Type 0} (m : Program S A) (handle : Failure → Program S A)
      → Keeps m
      → ((e : Failure) → Keeps (handle e))
      → Keeps (catch m handle)
  Keeps-catch {A} m handle h k s p = go (m s) (h s p)
    where
      go : (r : Result A × S) → P r.1 → P (catch (λ _. r) handle s).1
      go (ok a, t) q = q
      go (err e, t) q = k e t q

  pub Keeps-each :
      {A : Type 0} (body : A → Program S (Unit {0})) (items : List A)
      → ((a : A) → Keeps (body a))
      → Keeps (each body items)
  unfolding each
  Keeps-each body [] h = λ s p. p
  Keeps-each body (x ∷ xs) h =
      Keeps-bind (body x) (λ _. each body xs) (h x) (λ _. Keeps-each body xs h)

  pub Keeps-each-All :
      {A : Type 0} (body : A → Program S (Unit {0})) (items : List A)
      → All (λ a. Keeps (body a)) items
      → Keeps (each body items)
  unfolding each
  Keeps-each-All body [] h = λ s p. p
  Keeps-each-All body (x ∷ xs) (h, hs) =
      Keeps-bind (body x) (λ _. each body xs) h (λ _. Keeps-each-All body xs hs)

module _ {S A B : Type 0} where
  -- A sequence that returns went through a first part that returned.
  pub bind_ok :
      (m : Program S A) (f : A → Program S B) (s : S) (b : B) (u : S)
      → (m >>= f) s ≡ (ok b, u)
      → (a : A) × (t : S) × (m s ≡ (ok a, t)) × (f a t ≡ (ok b, u))
  bind_ok m f s b u e = go (m s) refl e
    where
      go :
          (r : Result A × S)
          → m s ≡ r
          → (◌>>=◌ (λ _. r) f s) ≡ (ok b, u)
          → (a : A) × (t : S) × (m s ≡ (ok a, t)) × (f a t ≡ (ok b, u))
      go (ok a, t) p q = (a, t, p, q)
      go (err x, t) p q = let q' = ap (λ z. z.0) q in cc

  pub bind-ok :
      (m : Program S A) (f : A → Program S B) (s : S) (a : A) (t : S)
      → m s ≡ (ok a, t)
      → (m >>= f) s ≡ f a t
  bind-ok m f s a t p = ap (λ r. ◌>>=◌ (λ _. r) f s) p

  pub bind-err :
      (m : Program S A) (f : A → Program S B) (s : S) (e : Failure) (t : S)
      → m s ≡ (err e, t)
      → (m >>= f) s ≡ (err e, t)
  bind-err m f s e t p = ap (λ r. ◌>>=◌ (λ _. r) f s) p

module _ {S A : Type 0} where
  pub catch-ok :
      (m : Program S A) (handle : Failure → Program S A) (s : S) (a : A) (t : S)
      → m s ≡ (ok a, t)
      → catch m handle s ≡ (ok a, t)
  catch-ok m handle s a t p = ap (λ r. catch (λ _. r) handle s) p

  pub catch-err :
      (m : Program S A) (handle : Failure → Program S A) (s : S) (e : Failure) (t : S)
      → m s ≡ (err e, t)
      → catch m handle s ≡ handle e t
  catch-err m handle s e t p = ap (λ r. catch (λ _. r) handle s) p

-- One step after the other.
abbrev pub in_order : {S : Type 0} → List (Program S (Unit {0})) → Program S (Unit {0})
in_order steps = each (λ step. step) steps
