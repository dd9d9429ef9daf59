-- ===== src/Applications/Worker/Errors.antt =====
-- The code that is stored for a failed run (`classifyErrorCode` in src/lib/applications/types.ts). The
-- regular expressions come in as `Patterns`.
use internship_pilot.Prelude.{◌||◌, Bool, Option, none, some, String, str_eq, if◌then◌else◌}

-- `new RegExp(source, "i").test(text)`, and the first captured path of a text about a form.
pub record Patterns : Type 0 where
  pub test : String → String → Bool
  pub captured_path : String → Option String

pub record Classified : Type 0 where
  pub error_code : String
  pub validation_path : Option String

abbrev coded : String → Classified
coded code = record { error_code = code; validation_path = none }

abbrev text_of : Option String → String
text_of none = ""
text_of (some t) = t

abbrev pub classify_text : Patterns → String → Classified
classify_text p text =
    if str_eq text ""
    then coded "UNKNOWN"
    else if p.test "FORM_DESCRIPTION_VERSION_MISMATCH" text || p.test "Version mismatch" text
    then coded "FORM_DESCRIPTION_VERSION_MISMATCH"
    else if p.test "FORM_DESCRIPTION_INVALID" text || p.test "invalid form description" text
    then record { error_code = "FORM_DESCRIPTION_INVALID"; validation_path = p.captured_path text }
    else if p.test "EXTENSION_DISCONNECTED" text
        || p.test "did not inject its in-page autofill button" text
    then coded "EXTENSION_DISCONNECTED"
    else if p.test "TAB_CLOSED" text || p.test "closed" text
    then coded "TAB_CLOSED"
    else if p.test "SERVER_UNAVAILABLE" text || p.test "unreachable" text
    then coded "SERVER_UNAVAILABLE"
    else if p.test "upload" text
    then coded "UPLOAD_FAILED"
    else if p.test "timeout" text || p.test "45 seconds" text
    then coded "DOM_SCAN_TIMEOUT"
    else if p.test "No readable application form" text
    then coded "UNSUPPORTED_FIELD"
    else if p.test "user" text
    then coded "USER_REVIEW_REQUIRED"
    else coded "WORKER_CRASH"

unfoldable pub classify_error_code : Patterns → Option String → Classified
classify_error_code p error_text = classify_text p (text_of error_text)
