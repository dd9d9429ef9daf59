-- ===== src/Matching/Queue/Codes.antt =====
-- Error codes of an automatic match: what is stored of an exception, and whether it is retried.
use Prim.Native.Char.{code}
use internship_pilot.Prelude.{
  ℕ, ◌≡◌, refl, Bool, true, false, ◌&&◌, ◌||◌, not, List, [], ◌∷◌, String, leb, length,
  if◌then◌else◌, includes, str_eq, all, Bool-cases, inl, inr, ◌==◌,
}
use internship_pilot.Program.{Failure, match_error, database, type_error, other}

abbrev pub codes : String → List ℕ
codes String.[] = []
codes (String.◌∷◌ c s) = code c ∷ codes s

abbrev pub is_upper : ℕ → Bool
is_upper c = leb b'A' c && leb c b'Z'

abbrev pub is_digit : ℕ → Bool
is_digit c = leb b'0' c && leb c b'9'

-- `[A-Z0-9_]`
abbrev pub is_code_char : ℕ → Bool
is_code_char c = is_upper c || (is_digit c || c == b'_')

-- `/^[A-Z][A-Z0-9_]{1,63}$/`
abbrev pub is_error_code : List ℕ → Bool
is_error_code [] = false
is_error_code (c ∷ cs) =
    is_upper c && (all is_code_char cs && (leb 1 (length cs) && leb (length cs) 63))

-- `/^P\d{4}$/`
abbrev pub is_prisma_code : List ℕ → Bool
is_prisma_code [] = false
is_prisma_code (c ∷ cs) = c == b'P' && (all is_digit cs && length cs == 4)

abbrev pub transient_error_codes : List String
transient_error_codes =
    "MODEL_UNAVAILABLE" ∷ "MODEL_TIMEOUT" ∷ "CLOUD_MODEL_NOT_CONFIGURED"
    ∷ "MATCH_PERSISTENCE_FAILED" ∷ "TEMPORARY_DATABASE_FAILURE" ∷ "TEMPORARY_NETWORK_FAILURE"
    ∷ "WORKER_INTERRUPTED" ∷ []

-- The order of the tests is the source's; a `MatchError` is no `TypeError`, and a code that matches
-- `/^P\d{4}$/` also matches the first test.
unfoldable pub safe_error_code : Failure → String
safe_error_code (match_error c status) = if is_error_code (codes c) then c else "TEMPORARY_FAILURE"
safe_error_code (database c) =
    if is_prisma_code (codes c) then "TEMPORARY_DATABASE_FAILURE" else "TEMPORARY_FAILURE"
safe_error_code type_error = "TEMPORARY_NETWORK_FAILURE"
safe_error_code (other message) = "TEMPORARY_FAILURE"

abbrev pub is_server_match_error : Failure → Bool
is_server_match_error (match_error c status) = leb 500 status
is_server_match_error _ = false

unfoldable pub is_transient : Failure → String → Bool
is_transient e c =
    if includes transient_error_codes c
    then true
    else if str_eq c "TEMPORARY_FAILURE"
    then true
    else is_server_match_error e && not (str_eq c "MODEL_RESPONSE_INVALID")

-- Whatever is thrown, what is stored is one short code of capitals, digits and underscores: no
-- message of a provider or of the database reaches the queue.
pub safe_error_code-is_error_code : (e : Failure) → is_error_code (codes (safe_error_code e)) ≡ true
unfolding safe_error_code
safe_error_code-is_error_code (match_error c status) = elim (Bool-cases (is_error_code (codes c))) [
  | inl y ↦ rw y y
  | inr n ↦ rw n
]
safe_error_code-is_error_code (database c) = elim (Bool-cases (is_prisma_code (codes c))) [
  | inl y ↦ rw y
  | inr n ↦ rw n
]
safe_error_code-is_error_code type_error = refl
safe_error_code-is_error_code (other message) = refl
