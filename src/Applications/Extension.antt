-- ===== src/Applications/Extension.antt =====
-- The tokens of browser extensions (src/lib/applications/extensionAuth.ts): each names one user, and
-- only its digest is stored. Hashing, randomness and the texts of a request come in as `Secrets`.
pub mod View
pub mod Revoke
pub mod Issue
pub mod Resolve
use Prim.Native.String.{◌++◌ as concat}
use internship_pilot.Prelude.{
  ℕ, ◌≡◌, ◌&&◌, ◌||◌, Bool, true, false, not, Option, none, some, List, String, str_eq, is_some,
  leb, ltb, if◌then◌else◌,
}
use internship_pilot.Database.{Table}
use internship_pilot.Program.{Program, Result, ok, err, database, ◌>>=◌, ◌>>◌, return}

-- A row of `ExtensionToken`, under its id; instants are milliseconds.
pub record Token : Type 0 where
  pub user_id : String
  pub token_hash : String
  pub token_hint : String
  pub label : String
  pub created_at : ℕ
  pub revoked_at : Option ℕ
  pub expires_at : Option ℕ
  pub last_used_at : Option ℕ

pub record IssuedToken : Type 0 where
  pub id : String
  pub token : String

pub record Secrets : Type 0 where
  -- `createHash("sha256").update(token).digest("hex")`
  pub hash_extension_token : String → String
  -- `randomBytes(32).toString("base64url")` and the generated id of the row
  pub random_token : ℕ → String
  pub fresh_id : ℕ → String
  -- `text.trim()` and `text.slice(0, n)`
  pub trim : String → String
  pub prefix : ℕ → String → String
  -- `timingSafeEqual` of two digests of one length
  pub same_digest : String → String → Bool
  pub same_digest_refl : (a : String) → same_digest a a ≡ true
  -- what `/^Bearer\s+(.+)$/i` captures of the header, trimmed
  pub captured : String → Option String

abbrev pub worker_token_label : String
worker_token_label = "Local application worker"

-- `label.trim().slice(0, 120) || "Browser extension"`
abbrev pub label_of : Secrets → String → String
label_of env label =
    let text = env.prefix 120 (env.trim label) in
    if str_eq text "" then "Browser extension" else text

-- The token of an `Authorization` header, where it has one that is not empty.
abbrev pub nonempty : Option String → Option String
nonempty none = none
nonempty (some t) = if str_eq t "" then none else some t

abbrev pub or_empty : Option String → String
or_empty none = ""
or_empty (some t) = t

unfoldable pub bearer_token : Secrets → Option String → Option String
bearer_token env header = nonempty (env.captured (env.trim (or_empty header)))

-- `tokenHash` is unique.
abbrev pub same_hash : Token → Token → Bool
same_hash a b = str_eq a.token_hash b.token_hash

abbrev pub new_token : Secrets → String → String → ℕ → Token
new_token env user label now =
    let token = env.random_token now in
    record {
      user_id = user;
      token_hash = env.hash_extension_token token;
      token_hint = concat (env.prefix 6 token) "…";
      label = label_of env label;
      created_at = now;
      revoked_at = none;
      expires_at = none;
      last_used_at = none;
    }

abbrev pub revoked : ℕ → Token → Token
revoked now r = record r { revoked_at = some now }

abbrev pub used : ℕ → Token → Token
used now r = record r { last_used_at = some now }

-- `{ userId, revokedAt: null }`
abbrev pub is_active_of : String → Token → Bool
is_active_of user r = str_eq r.user_id user && not (is_some r.revoked_at)

abbrev pub is_worker_of : String → Token → Bool
is_worker_of user r =
    str_eq r.user_id user && (str_eq r.label worker_token_label && not (is_some r.revoked_at))

-- `row.expiresAt && row.expiresAt.getTime() <= Date.now()`
abbrev pub is_expired : ℕ → Option ℕ → Bool
is_expired now none = false
is_expired now (some t) = leb t now

module _ (T : Table Token) where
  unfoldable pub revoke_extension_token : String → String → ℕ → T.Tab → Bool × T.Tab
  revoke_extension_token user id now t = (
    ltb 0 (T.count_at id (is_active_of user) t),
    T.update_at id (is_active_of user) (revoked now) t,
  )

  unfoldable pub list_extension_tokens : String → T.Tab → List (String × Token)
  list_extension_tokens user t = T.find_many (λ _ r. is_active_of user r) t

  -- `findUnique({ where: { tokenHash } })`
  unfoldable pub find_by_hash : String → T.Tab → Option (String × Token)
  find_by_hash digest t = T.find_first (λ _ r. str_eq r.token_hash digest) (λ _ _. false) t

  unfoldable pub revoke_worker_tokens : String → ℕ → T.Tab → T.Tab
  revoke_worker_tokens user now t = T.update_many (λ _ r. is_worker_of user r) (revoked now) t

module _ (T : Table Token) (env : Secrets) where
  abbrev pub issued : ℕ → Option T.Tab → T.Tab → Result IssuedToken × T.Tab
  issued now none t = (err (database "P2002"), t)
  issued now (some u) t = (ok (record { id = env.fresh_id now; token = env.random_token now }), u)

  unfoldable pub issue_extension_token : String → String → ℕ → Program T.Tab IssuedToken
  issue_extension_token user label now t =
      issued now (T.create same_hash (env.fresh_id now) (new_token env user label now) t) t

  -- Why a row that was found is not accepted: another digest, revoked, expired.
  abbrev pub refuses : ℕ → String → Token → Bool
  refuses now digest r =
      not (env.same_digest r.token_hash digest)
      || (is_some r.revoked_at || is_expired now r.expires_at)

  abbrev pub accept : ℕ → String → Option (String × Token) → T.Tab → Option String × T.Tab
  accept now digest none t = (none, t)
  accept now digest (some (id, r)) t =
      if refuses now digest r
      then (none, t)
      else (some r.user_id, T.update_at id (λ _. true) (used now) t)

  abbrev pub resolve_token : ℕ → Option String → T.Tab → Option String × T.Tab
  resolve_token now none t = (none, t)
  resolve_token now (some token) t =
      let digest = env.hash_extension_token token in accept now digest (find_by_hash T digest t) t

  -- The header's user; the time of the last use is written beside the request.
  unfoldable pub resolve_extension_user : ℕ → Option String → T.Tab → Option String × T.Tab
  resolve_extension_user now header t = resolve_token now (bearer_token env header) t

  unfoldable pub issue_worker_extension_token : String → ℕ → Program T.Tab IssuedToken
  issue_worker_extension_token user now t =
      issue_extension_token user worker_token_label now (revoke_worker_tokens T user now t)

  -- A route answers 401, and its handler does not run, where the request names no user.
  abbrev pub handle_as : {A : Type 0} → A → (String → A) → Option String → A
  handle_as unauthorized handler none = unauthorized
  handle_as unauthorized handler (some user) = if str_eq user "" then unauthorized else handler user

  unfoldable pub with_extension_user :
      {A : Type 0} → A → (String → A) → ℕ → Option String → T.Tab → A × T.Tab
  with_extension_user unauthorized handler now header t =
      let r = resolve_extension_user now header t in (handle_as unauthorized handler r.0, r.1)
