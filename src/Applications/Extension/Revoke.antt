-- ===== src/Applications/Extension/Revoke.antt =====
-- Revoking tokens, against the partial map from digests to users.
use internship_pilot.Prelude.{
  ℕ, ◌≡◌, refl, ap, ◌∙◌, ◌&&◌, Bool, true, false, Option, none, some, String, str_eq, if◌then◌else◌,
  Bool-cases, inl, inr,
}
use internship_pilot.Database.{Table, patched}
use internship_pilot.Applications.Extension.{
  Token, revoked, is_active_of, is_worker_of, revoke_extension_token, find_by_hash,
  revoke_worker_tokens,
}
use internship_pilot.Applications.Extension.View.{
  live_user, holder, changed, hit, IsUnique, Changes, changed-IsUnique, changed-find_by_hash,
}

revoked-live_user :
    (w : String → Token → Bool) (at now : ℕ) (o : Option (String × Token))
    → live_user now (changed w (revoked at) o) ≡ (if hit w o then none else live_user now o)
revoked-live_user w at now none = refl
revoked-live_user w at now (some (k, r)) = elim (Bool-cases (w k r)) [
  | inl y ↦ rw y refl
  | inr n ↦ rw n refl
]

one_row :
    (b : Bool) (w : Token → Bool) (f : Token → Token) (o : Option Token)
    → (if b then patched w f o else o) ≡ patched (λ r. b && w r) f o
one_row true w f o = refl
one_row false w f none = refl
one_row false w f (some r) = refl

module _ (T : Table Token) where
  abbrev pub is_own_token : String → String → String → Token → Bool
  is_own_token user id k r = str_eq k id && is_active_of user r

  pub update_at-Changes :
      (id : String) (w : Token → Bool) (f : Token → Token) (t : T.Tab)
      → Changes T (λ k r. str_eq k id && w r) f t (T.update_at id w f t)
  update_at-Changes id w f t k =
      T.update_at-find_unique id w f t k ∙ one_row (str_eq k id) w f (T.find_unique k t)

  -- Revoking a token takes its digest off the map if the token is the user's own, and changes nothing
  -- else of the map: nobody revokes another user's token. One digest still has one row.
  pub revoke-holder :
      (user id : String) (at now : ℕ) (t : T.Tab) (digest : String)
      → IsUnique T t
      → (holder T now digest (revoke_extension_token T user id at t).1 ≡ (
          if hit (is_own_token user id) (find_by_hash T digest t)
          then none
          else holder T now digest t))
        × IsUnique T (revoke_extension_token T user id at t).1
  unfolding revoke_extension_token
  revoke-holder user id at now t digest unique =
      let w = is_own_token user id in
      let u = T.update_at id (is_active_of user) (revoked at) t in
      let step = update_at-Changes id (is_active_of user) (revoked at) t in
      (
        ap (live_user now)
              (changed-find_by_hash T w (revoked at) t u digest (λ r. refl) step unique)
            ∙ revoked-live_user w at now (find_by_hash T digest t),
        changed-IsUnique T w (revoked at) t u (λ r. refl) step unique,
      )

  pub worker-holder :
      (user : String) (at now : ℕ) (t : T.Tab) (digest : String)
      → IsUnique T t
      → (holder T now digest (revoke_worker_tokens T user at t) ≡ (
          if hit (λ _ r. is_worker_of user r) (find_by_hash T digest t)
          then none
          else holder T now digest t))
        × IsUnique T (revoke_worker_tokens T user at t)
  unfolding revoke_worker_tokens
  worker-holder user at now t digest unique =
      let w = λ (_ : String) (r : Token). is_worker_of user r in
      let u = T.update_many w (revoked at) t in
      let step = T.update_many-find_unique w (revoked at) t in
      (
        ap (live_user now)
              (changed-find_by_hash T w (revoked at) t u digest (λ r. refl) step unique)
            ∙ revoked-live_user w at now (find_by_hash T digest t),
        changed-IsUnique T w (revoked at) t u (λ r. refl) step unique,
      )
