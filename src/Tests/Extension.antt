-- ===== src/Tests/Extension.antt =====
-- Tokens of browser extensions at concrete inputs.
use internship_pilot.Prelude.{
  ℕ, List, Option, ◌≡◌, refl, sym, ◌∙◌, arith, true, none, some, [], ◌∷◌, String, str_eq, eq_iff,
  if◌then◌else◌,
}
use internship_pilot.Database.Memory.{Rows, memory}
use internship_pilot.Program.{ok}
use internship_pilot.Applications.Extension.{
  Token, IssuedToken, Secrets, bearer_token, is_worker_of, issue_extension_token,
  revoke_extension_token, find_by_hash, resolve_extension_user, revoke_worker_tokens,
  issue_worker_extension_token,
}
use internship_pilot.Applications.Extension.View.{IsUnique, holder, hit}
use internship_pilot.Applications.Extension.Revoke.{is_own_token, revoke-holder}
use internship_pilot.Applications.Extension.Resolve.{
  held_by, IsSame, after_requests, resolve-holder, issue-resolve, issue_worker-holder,
}

-- The digest of a token is the token, and a header holds nothing else.
abbrev secrets : Secrets
secrets = record {
  hash_extension_token = λ t. t;
  random_token = λ n. "new";
  fresh_id = λ n. "k2";
  trim = λ t. t;
  prefix = λ n t. t;
  same_digest = λ a b. true;
  same_digest_refl = λ a. refl;
  captured = λ t. some t;
}

abbrev old_token : Token
old_token = record {
  user_id = "u1";
  token_hash = "old";
  token_hint = "o";
  label = "Local application worker";
  created_at = 5;
  revoked_at = none;
  expires_at = none;
  last_used_at = none;
}

abbrev tokens : Rows Token
tokens = record { keys = "k1" ∷ []; look = λ k. some old_token }

tokens-IsUnique : IsUnique memory tokens
tokens-IsUnique j k a b f g h = first j a f ∙ sym (first k b g)
  where
    first :
        (k : String) (r : Token) → (memory {Row = Token}).find_unique k tokens ≡ some r → k ≡ "k1"
    first k r e = sym ((eq_iff "k1" k).0 (ground arith))

revoke-holder_example :
    (holder memory 30 "old" (revoke_extension_token memory "u1" "k1" 20 tokens).1 ≡ (
      if hit (is_own_token memory "u1" "k1") (find_by_hash memory "old" tokens)
      then none
      else holder memory 30 "old" tokens))
    × IsUnique memory (revoke_extension_token memory "u1" "k1" 20 tokens).1
revoke-holder_example = revoke-holder memory "u1" "k1" 20 30 tokens "old" tokens-IsUnique

resolve-holder_example :
    ((resolve_extension_user memory secrets 30 (some "old") tokens).0
      ≡ held_by memory secrets 30 (bearer_token secrets (some "old")) tokens)
    × IsSame memory secrets tokens (resolve_extension_user memory secrets 30 (some "old") tokens).1
resolve-holder_example = resolve-holder memory secrets 30 (some "old") tokens tokens-IsUnique

abbrev made : IssuedToken
made = record { id = "k2"; token = "new" }

abbrev issued_tokens : Rows Token
issued_tokens = (issue_extension_token memory secrets "u2" "Laptop" 20 tokens).1

made_one : issue_extension_token memory secrets "u2" "Laptop" 20 tokens ≡ (ok made, issued_tokens)
unfolding issue_extension_token
made_one = refl

sent : bearer_token secrets (some "new") ≡ some "new"
unfolding bearer_token
sent = refl

abbrev requests : List (ℕ × Option String)
requests = (25, some "old") ∷ (26, some "new") ∷ []

issue-resolve_example :
    (resolve_extension_user memory secrets 30
      (some "new")
      (after_requests memory secrets requests issued_tokens)).0
    ≡ some "u2"
issue-resolve_example =
    issue-resolve memory secrets "u2" "Laptop" 20 30 (some "new") requests tokens made issued_tokens
      tokens-IsUnique made_one sent

abbrev worker_tokens : Rows Token
worker_tokens = (issue_worker_extension_token memory secrets "u1" 20 tokens).1

made_worker : issue_worker_extension_token memory secrets "u1" 20 tokens ≡ (ok made, worker_tokens)
unfolding issue_worker_extension_token issue_extension_token revoke_worker_tokens
made_worker = refl

issue_worker-holder_example : holder memory 30 "old" worker_tokens ≡ (
    if str_eq "old" "new"
    then some "u1"
    else if hit (λ _ r. is_worker_of "u1" r) (find_by_hash memory "old" tokens)
    then none
    else holder memory 30 "old" tokens)
issue_worker-holder_example =
    issue_worker-holder memory secrets "u1" 20 30 tokens made worker_tokens "old" tokens-IsUnique
      made_worker
