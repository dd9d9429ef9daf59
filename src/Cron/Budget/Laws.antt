-- ===== src/Cron/Budget/Laws.antt =====
-- What the budget, the settings, the outcome and the authorisation of a lane run guarantee.
use Prim.Native.Nat.{bit_or, bit_xor, digits, differ, bit_or-bitwise, bit_xor-bitwise}
use mathlib.Core.Option.{some-injective}
use internship_pilot.Prelude.{
  ℕ, zero, suc, ◌/◌, ◌%◌, ◌≤◌, ◌<◌, max, ◌≡◌, ◌≢◌, ◌↔◌, inl, inr, refl, sym, ap, ◌∙◌, arith, true,
  false, Option, none, some, List, [], ◌∷◌, ◌++◌, All, length, String, Bool-cases,
}
use internship_pilot.Cron.Budget.{
  bounded_env, has_error, lane_outcome, mismatch_from, same_text, bearer,
  is_authorized_cron_request,
}

or_digits-eq-zero : (n a b : ℕ) → a ≤ n → digits (λ y. y) max n a b ≡ 0 → (a ≡ 0) × (b ≡ 0)
or_digits-eq-zero zero zero b l e = (refl, e)
or_digits-eq-zero zero (suc a) b l e = absurd (omega arith)
or_digits-eq-zero (suc n) zero b l e = (refl, e)
or_digits-eq-zero (suc n) (suc a) b l e =
    let half = or_digits-eq-zero n (suc a / 2) (b / 2) (omega arith) (omega arith) in
    (omega arith, omega arith)

bit_or-eq-zero : (a b : ℕ) → bit_or a b ≡ 0 → (a ≡ 0) × (b ≡ 0)
bit_or-eq-zero a b e = or_digits-eq-zero a a b (omega arith) (sym (bit_or-bitwise a b) ∙ e)

differ-eq-zero : (a b : ℕ) → a < 2 → b < 2 → differ a b ≡ 0 → a ≡ b
differ-eq-zero zero zero p q e = refl
differ-eq-zero zero (suc b) p q e = absurd (omega arith)
differ-eq-zero (suc a) zero p q e = absurd (omega arith)
differ-eq-zero (suc a) (suc b) p q e = omega arith

differ_self : (a : ℕ) → differ a a ≡ 0
differ_self zero = refl
differ_self (suc a) = differ_self a

xor_digits-eq-zero : (n a b : ℕ) → a ≤ n → digits (λ y. y) differ n a b ≡ 0 → a ≡ b
xor_digits-eq-zero zero zero b l e = sym e
xor_digits-eq-zero zero (suc a) b l e = absurd (omega arith)
xor_digits-eq-zero (suc n) zero b l e = sym e
xor_digits-eq-zero (suc n) (suc a) b l e =
    let half = xor_digits-eq-zero n (suc a / 2) (b / 2) (omega arith) (omega arith) in
    let bits = differ-eq-zero (suc a % 2) (b % 2) (omega arith) (omega arith) (omega arith) in
    omega arith

xor_digits_self : (n a : ℕ) → a ≤ n → digits (λ y. y) differ n a a ≡ 0
xor_digits_self zero zero l = refl
xor_digits_self zero (suc a) l = absurd (omega arith)
xor_digits_self (suc n) zero l = refl
xor_digits_self (suc n) (suc a) l =
    omega (arith, xor_digits_self n (suc a / 2), differ_self (suc a % 2))

bit_xor_self : (a : ℕ) → bit_xor a a ≡ 0
bit_xor_self a = bit_xor-bitwise a a ∙ xor_digits_self a a (omega arith)

bit_xor-eq-zero : (a b : ℕ) → bit_xor a b ≡ 0 → a ≡ b
bit_xor-eq-zero a b e = xor_digits-eq-zero a a b (omega arith) (sym (bit_xor-bitwise a b) ∙ e)

mismatch_sound :
    (m : ℕ) (hs es : List ℕ)
    → length hs ≡ length es
    → mismatch_from m hs es ≡ 0
    → (m ≡ 0) × (hs ≡ es)
unfolding mismatch_from
mismatch_sound m [] [] l e = (e, refl)
mismatch_sound m [] (x ∷ es) l e = absurd (omega arith)
mismatch_sound m (h ∷ hs) [] l e = absurd (omega arith)
mismatch_sound m (h ∷ hs) (x ∷ es) l e =
    let (o, same) = mismatch_sound (bit_or m (bit_xor h x)) hs es (omega arith) e in
    let (z, d) = bit_or-eq-zero m (bit_xor h x) o in (z, ground (arith, bit_xor-eq-zero h x))

mismatch_self : (hs : List ℕ) → mismatch_from 0 hs hs ≡ 0
unfolding mismatch_from
mismatch_self [] = refl
mismatch_self (h ∷ hs) = rw (bit_xor_self h) (mismatch_self hs)

same_text_iff : (hs es : List ℕ) → (same_text hs es ≡ true) ↔ (hs ≡ es)
unfolding same_text
same_text_iff hs es = (
  λ e. (mismatch_sound 0 hs es (ground arith) (ground arith)).1,
  λ e. rw e (ground (arith, mismatch_self es)),
)

-- A cron request is let through exactly when a secret is configured and the header is the text
-- "Bearer " followed by that secret, code unit for code unit.
pub is_authorized_iff :
    (secret : List ℕ) (header : Option (List ℕ))
    → (is_authorized_cron_request secret header ≡ true)
      ↔ ((secret ≢ []) × (header ≡ some (bearer ++ secret)))
unfolding is_authorized_cron_request
is_authorized_iff [] header = (λ e. cc, λ h. absurd (h.0 refl))
is_authorized_iff (c ∷ secret) none = (λ e. cc, λ h. cc)
is_authorized_iff (c ∷ secret) (some []) = (λ e. cc, λ h. cc)
is_authorized_iff (c ∷ secret) (some (h ∷ header)) =
    let (sound, complete) = same_text_iff (h ∷ header) (bearer ++ c ∷ secret) in
    (λ e. (λ n. cc, ap some (sound e)), λ (n, same). complete (some-injective _ _ same))

-- A bounded setting stays inside its bounds, whatever the environment holds.
pub bounded_env_bounds :
    (parsed : Option ℕ) (fallback low high : ℕ)
    → low ≤ high
    → (low ≤ bounded_env parsed fallback low high) × (bounded_env parsed fallback low high ≤ high)
unfolding bounded_env
bounded_env_bounds none fallback low high l = omega arith
bounded_env_bounds (some p) fallback low high l = omega arith

-- A lane calls itself ok exactly when none of its steps has an error.
pub lane_outcome_iff :
    (steps : List (String × Option String))
    → ((lane_outcome steps).0 ≡ true) ↔ All (λ s. has_error s ≡ false) steps
unfolding lane_outcome
lane_outcome_iff [] = (λ e. tt, λ a. refl)
lane_outcome_iff (s ∷ steps) =
    let ih = lane_outcome_iff steps in
    elim (Bool-cases (has_error s)) [
      | inl bad ↦ (λ e. ground arith, λ (a, rest). cc)
      | inr good ↦ (λ e. (good, ih.0 (ground arith)), λ (a, rest). ground (arith, ih.1 rest))
    ]
