-- ===== src/Jobs/Availability.antt =====
-- The availability of a posting (src/lib/jobs/verificationModel.ts): what a stored status means, its
-- badge, and which states belong to the active feed.
use mathlib.Core.Bool.{true≢false}
use internship_pilot.Prelude.{
  ◌≡◌, ◌⊎◌, ◌↔◌, inl, inr, refl, arith, eq_iff, ap, sym, Bool, true, false, ◌||◌, Option, none,
  some, String, str_eq, if◌then◌else◌,
}

pub data Availability : Type 0 where
  official_verified active_source_listed verification_pending : Availability
  closed_confirmed destination_mismatch security_blocked : Availability

unfoldable pub canonical_text : String → Availability
canonical_text s =
    if str_eq s "VERIFIED_OFFICIAL_AT_LAST_CHECK"
    then official_verified
    else if str_eq s "ACTIVE_SOURCE_LISTED"
    then active_source_listed
    else if str_eq s "VERIFICATION_PENDING" || (str_eq s "Pending" || str_eq s "NeedsReview")
    then verification_pending
    else if str_eq s "Closed"
    then closed_confirmed
    else if str_eq s "DESTINATION_MISMATCH"
    then destination_mismatch
    else if str_eq s "SecurityQuarantine"
    then security_blocked
    else if str_eq s "CLOSED_OR_UNVERIFIED"
    then active_source_listed
    else active_source_listed

unfoldable pub canonical_availability : Option String → Availability
unfolding canonical_text
canonical_availability none = active_source_listed
canonical_availability (some s) = canonical_text s

abbrev pub badge : Availability → String
badge official_verified = "official_verified"
badge active_source_listed = "source_listed"
badge verification_pending = "verification_pending"
badge closed_confirmed = "closed_confirmed"
badge destination_mismatch = "destination_mismatch"
badge security_blocked = "security_blocked"

unfoldable pub badge_for : Option String → String
unfolding canonical_availability
badge_for status = badge (canonical_availability status)

abbrev pub is_active : Availability → Bool
is_active official_verified = true
is_active active_source_listed = true
is_active verification_pending = true
is_active _ = false

unfoldable pub is_active_availability : Option String → Bool
unfolding canonical_availability
is_active_availability status = is_active (canonical_availability status)

closed_text : (s : String) → canonical_text s ≡ closed_confirmed → s ≡ "Closed"
unfolding canonical_text
closed_text s e = ground (arith, eq_iff s "Closed")

inactive_text :
    (s : String)
    → is_active (canonical_text s) ≡ false
    → (s ≡ "Closed") ⊎ (s ≡ "DESTINATION_MISMATCH") ⊎ (s ≡ "SecurityQuarantine")
unfolding canonical_text
inactive_text s e =
    ground
      (arith, eq_iff s "Closed", eq_iff s "DESTINATION_MISMATCH", eq_iff s "SecurityQuarantine")

some_of :
    {P Q R : Type 0}
    → P ⊎ Q ⊎ R
    → {P' Q' R' : Type 0} → (P → P')
    → (Q → Q')
    → (R → R')
    → P' ⊎ Q' ⊎ R'
some_of (inl p) f g h = inl (f p)
some_of (inr (inl q)) f g h = inr (inl (g q))
some_of (inr (inr r)) f g h = inr (inr (h r))

badge-closed : (a : Availability) → badge a ≡ "closed_confirmed" → a ≡ closed_confirmed
badge-closed closed_confirmed e = refl
badge-closed a e = absurd (true≢false (sym ((eq_iff (badge a) "closed_confirmed").1 e)))

-- A posting leaves the active feed exactly by one of three stored statuses: closed, mismatched or
-- blocked. Every other status, an old or an unknown one and none at all, counts as active; and only
-- "Closed" has the badge of a closed posting.
pub is_active_availability_iff :
    (status : Option String)
    → ((is_active_availability status ≡ false) ↔ (
        (status ≡ some "Closed")
        ⊎ (status ≡ some "DESTINATION_MISMATCH")
        ⊎ (status ≡ some "SecurityQuarantine")))
      × ((badge_for status ≡ "closed_confirmed") ↔ (status ≡ some "Closed"))
unfolding is_active_availability badge_for
is_active_availability_iff status = ((inactive status, active status), (closed status, shut status))
  where
    active :
        (o : Option String)
        → (o ≡ some "Closed") ⊎ (o ≡ some "DESTINATION_MISMATCH") ⊎ (o ≡ some "SecurityQuarantine")
        → is_active_availability o ≡ false
    active o (inl e) = ap is_active_availability e
    active o (inr (inl e)) = ap is_active_availability e
    active o (inr (inr e)) = ap is_active_availability e

    inactive :
        (o : Option String)
        → is_active_availability o ≡ false
        → (o ≡ some "Closed") ⊎ (o ≡ some "DESTINATION_MISMATCH") ⊎ (o ≡ some "SecurityQuarantine")
    inactive none e = cc
    inactive (some s) e = some_of (inactive_text s e) (ap some) (ap some) (ap some)

    shut : (o : Option String) → o ≡ some "Closed" → badge_for o ≡ "closed_confirmed"
    shut o e = ap badge_for e

    closed : (o : Option String) → badge_for o ≡ "closed_confirmed" → o ≡ some "Closed"
    closed none e = let bad = badge-closed (canonical_availability none) e in cc
    closed (some s) e = ap some (closed_text s (badge-closed (canonical_availability (some s)) e))
