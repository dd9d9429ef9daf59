-- ===== src/Applications/Extension/Resolve.antt =====
-- Resolving a request's token, and replacing the worker's, against the partial map from digests to users.
use internship_pilot.Prelude.{
  ℕ, ◌≡◌, refl, ap, subst, ◌∙◌, ◌&&◌, ◌||◌, Bool, true, Option, none, some, List, [], ◌∷◌, String,
  str_eq, str_eq_refl, is_some, if◌then◌else◌, Bool-cases, inl, inr,
}
use internship_pilot.Applications.Extension.Issue.{issue-holder}
use internship_pilot.Applications.Extension.Revoke.{worker-holder, update_at-Changes}
use internship_pilot.Database.{Table}
use internship_pilot.Program.{ok}
use internship_pilot.Applications.Extension.{
  Token, IssuedToken, Secrets, bearer_token, worker_token_label, used, is_worker_of, is_expired,
  issue_extension_token, find_by_hash, refuses, accept, resolve_token, resolve_extension_user,
  revoke_worker_tokens, issue_worker_extension_token,
}
use internship_pilot.Applications.Extension.View.{
  live_user, holder, changed, hit, IsUnique, found_row, changed-find_by_hash, changed-IsUnique,
}

used-live_user :
    (w : String → Token → Bool) (at now : ℕ) (o : Option (String × Token))
    → live_user now (changed w (used at) o) ≡ live_user now o
used-live_user w at now none = refl
used-live_user w at now (some (k, r)) = elim (Bool-cases (w k r)) [
  | inl y ↦ rw y refl
  | inr n ↦ rw n refl
]

module _ (T : Table Token) (env : Secrets) where
  not_refused :
      (now : ℕ) (digest : String) (r : Token)
      → r.token_hash ≡ digest
      → refuses T env now digest r ≡ (is_some r.revoked_at || is_expired now r.expires_at)
  not_refused now digest r h =
      subst (λ d. refuses T env now d r ≡ (is_some r.revoked_at || is_expired now r.expires_at)) h
        (rw (env.same_digest_refl r.token_hash) refl)

  -- A request is answered by the user for whom the digest of its token stands; without a token, by
  -- nobody. The map stays as it was.
  abbrev pub held_by : ℕ → Option String → T.Tab → Option String
  held_by now none t = none
  held_by now (some token) t = holder T now (env.hash_extension_token token) t

  abbrev pub IsSame : T.Tab → T.Tab → Type 0
  IsSame t u = (later : ℕ) (digest : String) → holder T later digest u ≡ holder T later digest t

  used-IsSame :
      (id : String) (at : ℕ) (t : T.Tab)
      → IsUnique T t
      → IsSame t (T.update_at id (λ _. true) (used at) t)
  used-IsSame id at t unique later digest =
      let w = λ (k : String) (r : Token). str_eq k id && true in
      let u = T.update_at id (λ _. true) (used at) t in
      let step = update_at-Changes T id (λ _. true) (used at) t in
      ap (live_user later) (changed-find_by_hash T w (used at) t u digest (λ r. refl) step unique)
      ∙ used-live_user w at later (find_by_hash T digest t)

  used-IsUnique :
      (id : String) (at : ℕ) (t : T.Tab)
      → IsUnique T t
      → IsUnique T (T.update_at id (λ _. true) (used at) t)
  used-IsUnique id at t unique =
      changed-IsUnique T (λ k r. str_eq k id && true) (used at) t
        (T.update_at id (λ _. true) (used at) t) (λ r. refl)
        (update_at-Changes T id (λ _. true) (used at) t) unique

  accepted :
      (now : ℕ) (digest : String) (o : Option (String × Token)) (t : T.Tab)
      → IsUnique T t
      → find_by_hash T digest t ≡ o
      → ((accept T env now digest o t).0 ≡ live_user now o)
        × IsSame t (accept T env now digest o t).1
        × IsUnique T (accept T env now digest o t).1
  accepted now digest none t unique e = (refl, λ later d. refl, unique)
  accepted now digest (some (id, r)) t unique e =
      let (f, h) = found_row T digest t id r e in
      let verdict = not_refused now digest r h in
      elim (Bool-cases (is_some r.revoked_at || is_expired now r.expires_at)) [
        | inl y ↦ rw (verdict ∙ y) (rw y refl, λ later d. refl, unique)
        | inr n ↦
            rw (verdict ∙ n) (rw n refl, used-IsSame id now t unique, used-IsUnique id now t unique)
      ]

  resolved :
      (now : ℕ) (token : Option String) (t : T.Tab)
      → IsUnique T t
      → ((resolve_token T env now token t).0 ≡ held_by now token t)
        × IsSame t (resolve_token T env now token t).1
        × IsUnique T (resolve_token T env now token t).1
  resolved now none t unique = (refl, λ later d. refl, unique)
  resolved now (some token) t unique = accepted now (env.hash_extension_token token) _ t unique refl

  -- A request resolves to the user for whom the digest of its bearer token stands, and to nobody
  -- without one: a revoked or expired token, and a digest that no row has, name nobody. The answer
  -- changes nothing of the map.
  pub resolve-holder :
      (now : ℕ) (header : Option String) (t : T.Tab)
      → IsUnique T t
      → ((resolve_extension_user T env now header t).0 ≡ held_by now (bearer_token env header) t)
        × IsSame t (resolve_extension_user T env now header t).1
  unfolding resolve_extension_user
  resolve-holder now header t unique =
      let (answer, same, still) = resolved now (bearer_token env header) t unique in (answer, same)

  -- The requests that are answered one after the other, each at a time and with a header.
  abbrev pub after_requests : List (ℕ × Option String) → T.Tab → T.Tab
  after_requests [] t = t
  after_requests ((now, header) ∷ rest) t =
      after_requests rest (resolve_extension_user T env now header t).1

  after_requests-IsSame :
      (requests : List (ℕ × Option String)) (t : T.Tab)
      → IsUnique T t
      → IsSame t (after_requests requests t) × IsUnique T (after_requests requests t)
  unfolding resolve_extension_user
  after_requests-IsSame [] t unique = (λ later d. refl, unique)
  after_requests-IsSame ((now, header) ∷ rest) t unique =
      let (answer, same, still) = resolved now (bearer_token env header) t unique in
      let (later_same, last) =
        after_requests-IsSame rest (resolve_extension_user T env now header t).1 still in
      (λ later d. later_same later d ∙ same later d, last)

  -- A token that was issued for a user, under whatever label, names this user in every request that
  -- carries it, after any number of other requests were answered, as long as nothing but requests
  -- was worked on since: no token was revoked or issued.
  pub issue-resolve :
      (user label : String) (at now : ℕ) (header : Option String)
      (requests : List (ℕ × Option String)) (t : T.Tab) (i : IssuedToken) (u : T.Tab)
      → IsUnique T t
      → issue_extension_token T env user label at t ≡ (ok i, u)
      → bearer_token env header ≡ some i.token
      → (resolve_extension_user T env now header (after_requests requests u)).0 ≡ some user
  issue-resolve user label at now header requests t i u unique e sent =
      let (map, still) = issue-holder T env user label at t i u unique e in
      let own = map now (env.hash_extension_token i.token) in
      let (same, last) = after_requests-IsSame requests u still in
      (resolve-holder now header (after_requests requests u) last).0
      ∙ (ap (λ o. held_by now o (after_requests requests u)) sent
          ∙ (same now (env.hash_extension_token i.token)
              ∙ rw (str_eq_refl (env.hash_extension_token i.token)) at own))

  -- When the local worker gets a new token for its user, the worker's former tokens of this user
  -- stop naming anybody, the new one names the user, and every other token names whom it did.
  pub issue_worker-holder :
      (user : String) (at now : ℕ) (t : T.Tab) (i : IssuedToken) (u : T.Tab) (digest : String)
      → IsUnique T t
      → issue_worker_extension_token T env user at t ≡ (ok i, u)
      → holder T now digest u ≡ (
          if str_eq digest (env.hash_extension_token i.token)
          then some user
          else if hit (λ _ r. is_worker_of user r) (find_by_hash T digest t)
          then none
          else holder T now digest t)
  unfolding issue_worker_extension_token
  issue_worker-holder user at now t i u digest unique e =
      let (gone, still) = worker-holder T user at now t digest unique in
      let (map, last) =
        issue-holder T env user worker_token_label at (revoke_worker_tokens T user at t) i u still
          e in
      map now digest
      ∙ ap (λ o. if str_eq digest (env.hash_extension_token i.token) then some user else o) gone
