-- ===== src/Documents/Strategy.antt =====
-- Which résumé an application uses (src/lib/documents/strategy.ts).
use Prim.Native.String.{◌++◌ as concat}
use internship_pilot.Prelude.{
  ℕ, ◌≡◌, ◌⊎◌, inl, inr, refl, arith, eq_iff, Bool, false, ◌&&◌, ◌||◌, Option, none, some, String,
  str_eq, leb, if◌then◌else◌,
}

pub data DocumentStrategy : Type 0 where
  tailored partial_tailoring master_resume_fallback : DocumentStrategy
  existing_approved_document no_approved_document : DocumentStrategy

pub data Completeness : Type 0 where
  complete partial_description no_description : Completeness

-- `JSON.parse` of a text: a failure, an array of a length, or another value that is truthy or not.
pub data Json : Type 0 where
  malformed : Json
  array : ℕ → Json
  value : Bool → Json

-- `trimmed` is the length of the trimmed text.
unfoldable pub safe_json_non_empty : (String → Json) → (String → ℕ) → String → Bool
safe_json_non_empty parse trimmed text = elim (parse text) [
  | malformed ↦ leb 1 (trimmed text)
  | array n ↦ leb 1 n
  | value truthy ↦ truthy
]

abbrev pub has_section : (String → Json) → (String → ℕ) → Option String → Bool
has_section parse trimmed none = false
has_section parse trimmed (some text) =
    if str_eq text "" then false else safe_json_non_empty parse trimmed text

abbrev pub trimmed_length : (String → ℕ) → Option String → ℕ
trimmed_length trimmed none = 0
trimmed_length trimmed (some text) = trimmed text

unfoldable pub job_description_completeness :
    (String → Json) → (String → ℕ) → Option String → Option String → Option String → Completeness
unfolding safe_json_non_empty
job_description_completeness parse trimmed description responsibilities qualifications =
    let has_resp = has_section parse trimmed responsibilities in
    let has_qual = has_section parse trimmed qualifications in
    if has_resp && has_qual
    then complete
    else if leb 120 (trimmed_length trimmed description) || (has_resp || has_qual)
    then partial_description
    else no_description

abbrev pub strategy_of_text : String → DocumentStrategy
strategy_of_text s =
    if str_eq s "TAILORED_WITH_SUPPORTED_CHANGES"
      || (str_eq s "MASTER_UNCHANGED_NO_SUPPORTED_IMPROVEMENT" || str_eq s "TAILORED")
    then tailored
    else if str_eq s "PARTIAL_TAILORING"
    then partial_tailoring
    else master_resume_fallback

unfoldable pub strategy_from_tailoring_status : Option String → DocumentStrategy
strategy_from_tailoring_status none = master_resume_fallback
strategy_from_tailoring_status (some s) = strategy_of_text s

pub record Document : Type 0 where
  pub id : String
  pub type : String
  pub qa_status : String
  pub identity_verified : Bool
  pub tailoring_status : Option String

unfoldable pub is_usable_resume : Document → Bool
is_usable_resume d = str_eq d.type "resume" && (str_eq d.qa_status "pass" && d.identity_verified)

abbrev pub completeness_text : Completeness → String
completeness_text complete = "complete"
completeness_text partial_description = "partial"
completeness_text no_description = "none"

abbrev pub strategy_text : DocumentStrategy → String
strategy_text tailored = "TAILORED"
strategy_text partial_tailoring = "PARTIAL_TAILORING"
strategy_text master_resume_fallback = "MASTER_RESUME_FALLBACK"
strategy_text existing_approved_document = "EXISTING_APPROVED_DOCUMENT"
strategy_text no_approved_document = "NO_APPROVED_DOCUMENT"

unfoldable pub document_strategy_reason : DocumentStrategy → Completeness → String
document_strategy_reason tailored c =
    "Complete job-description sections were available; using the job-tailored resume."
document_strategy_reason partial_tailoring c =
    "Only a partial job description was available; tailoring was applied where supported and confidence is lowered."
document_strategy_reason master_resume_fallback c =
    "Complete job-description sections were unavailable. Internship Pilot is using your approved master resume and will continue autofilling."
document_strategy_reason existing_approved_document c =
    concat "Reusing a previously generated, approved resume for this job (source description was "
      (concat (completeness_text c) "); not regenerating.")
document_strategy_reason no_approved_document c =
    "No approved resume exists yet. Generate documents (or approve a master resume) before autofill can upload a resume."

unfoldable pub tailoring_status_for_completeness : Completeness → String → String
tailoring_status_for_completeness complete audit_status = audit_status
tailoring_status_for_completeness partial_description audit_status = "PARTIAL_TAILORING"
tailoring_status_for_completeness no_description audit_status = "MASTER_RESUME_FALLBACK"

-- The status that is stored for a description reads back as its strategy: for a partial description
-- as partial tailoring, which otherwise is read only where a complete description's audit said so,
-- and for a missing one as the master résumé.
pub strategy-tailoring_status :
    (c : Completeness) (audit_status : String)
    → (strategy_from_tailoring_status (some (tailoring_status_for_completeness c audit_status))
          ≡ partial_tailoring
        → (c ≡ partial_description) ⊎ ((c ≡ complete) × (audit_status ≡ "PARTIAL_TAILORING")))
      × (c ≡ partial_description
          → strategy_from_tailoring_status (some (tailoring_status_for_completeness c audit_status))
            ≡ partial_tailoring)
      × (c ≡ no_description
          → strategy_from_tailoring_status (some (tailoring_status_for_completeness c audit_status))
            ≡ master_resume_fallback)
unfolding strategy_from_tailoring_status tailoring_status_for_completeness
strategy-tailoring_status complete a =
    (λ e. inr (refl, ground (arith, eq_iff a "PARTIAL_TAILORING")), λ e. cc, λ e. cc)
strategy-tailoring_status partial_description a = (λ e. inl refl, λ e. refl, λ e. cc)
strategy-tailoring_status no_description a = (λ e. cc, λ e. cc, λ e. refl)
