-- ===== src/Applications/Extension/Issue.antt =====
-- Issuing and resolving tokens, against the partial map from digests to users.
use internship_pilot.Prelude.{
  ℕ, ◌≡◌, ◌≢◌, refl, sym, ap, ◌∙◌, Option, none, some, String, str_eq, eq_iff, if◌then◌else◌,
  Bool-cases, Option-cases, inl, inr, ◌⊎◌,
}
use mathlib.Core.Option.{some-injective}
use internship_pilot.Database.{Table}
use internship_pilot.Database.Laws.{create_self}
use internship_pilot.Program.{Result, ok, err}
use internship_pilot.Applications.Extension.{
  Token, IssuedToken, Secrets, same_hash, new_token, issued, issue_extension_token, find_by_hash,
}
use internship_pilot.Applications.Extension.View.{
  live_user, holder, IsUnique, found_row, known_row, unknown_row, absent_row,
}

abbrev token_or : String → Result IssuedToken → String
token_or other_text (ok i) = i.token
token_or other_text (err e) = other_text

module _ (T : Table Token) where
  module _ (id : String) (made : Token) (t u : T.Tab)
      (done : T.create same_hash id made t ≡ some u) where
    old_or_new :
        (k : String) (r : Token)
        → T.find_unique k u ≡ some r
        → ((k ≡ id) × (r ≡ made)) ⊎ (T.find_unique k t ≡ some r)
    old_or_new k r f =
        let row_at = T.create-find_unique same_hash id made t u k done in
        elim (Bool-cases (str_eq k id)) [
          | inl y ↦
              let row = rw y at row_at in inl ((eq_iff k id).0 y, some-injective _ _ (sym f ∙ row))
          | inr n ↦ let row = rw n at row_at in inr (sym row ∙ f)
        ]

    no_old_hash :
        (k : String) (r : Token) → T.find_unique k t ≡ some r → r.token_hash ≢ made.token_hash
    no_old_hash k r f h =
        let apart = T.create_fresh same_hash id made t u k r done f in
        let same = (eq_iff made.token_hash r.token_hash).1 (sym h) in cc

    create-IsUnique : IsUnique T t → IsUnique T u
    create-IsUnique unique j k a b f g h = elim (old_or_new j a f) [
      | inl (i, p) ↦ elim (old_or_new k b g) [
        | inl (l, q) ↦ i ∙ sym l
        | inr old ↦ absurd (no_old_hash k b old (sym h ∙ ap (λ x. x.token_hash) p))
      ]
      | inr older ↦ elim (old_or_new k b g) [
        | inl (l, q) ↦ absurd (no_old_hash j a older (h ∙ ap (λ x. x.token_hash) q))
        | inr old ↦ unique j k a b older old h
      ]
    ]

    kept_row : (k : String) (r : Token) → T.find_unique k t ≡ some r → T.find_unique k u ≡ some r
    kept_row k r f =
        let row_at = T.create-find_unique same_hash id made t u k done in
        elim (Bool-cases (str_eq k id)) [
          | inl y ↦
              let fresh = T.create_new_key same_hash id made t u done in
              let same = ap (λ x. T.find_unique x t) ((eq_iff k id).0 y) in cc
          | inr n ↦ (rw n at row_at) ∙ f
        ]

    create-find_by_hash :
        (digest : String)
        → IsUnique T t
        → find_by_hash T digest u
          ≡ (if str_eq digest made.token_hash then some (id, made) else find_by_hash T digest t)
    create-find_by_hash digest unique = elim (Bool-cases (str_eq digest made.token_hash)) [
      | inl y ↦
          let same = sym ((eq_iff digest made.token_hash).0 y) in
          rw y (
            known_row T digest u id made (create-IsUnique unique)
              (create_self T same_hash id made t u done) same)
      | inr n ↦ rw n (elim (Option-cases (find_by_hash T digest t)) [
        | inl none_found ↦ rw none_found (
            unknown_row T digest u (λ k r f h. elim (old_or_new k r f) [
              | inl (l, q) ↦
                  let same = (eq_iff digest made.token_hash).1 (sym h ∙ ap (λ x. x.token_hash) q) in
                  cc
              | inr old ↦ absent_row T digest t k r none_found old h
            ]))
        | inr ((k, r), e) ↦
            let (f, h) = found_row T digest t k r e in
            rw e (known_row T digest u k r (create-IsUnique unique) (kept_row k r f) h)
      ])
    ]

module _ (T : Table Token) (env : Secrets) where
  created :
      (o : Option T.Tab) (at : ℕ) (t : T.Tab) (i : IssuedToken) (u : T.Tab)
      → issued T env at o t ≡ (ok i, u)
      → (o ≡ some u) × (i.token ≡ env.random_token at)
  created none at t i u e = let e' = ap (λ z. z.0) e in cc
  created (some v) at t i u e = (ap some (ap (λ z. z.1) e), sym (ap (λ z. token_or "" z.0) e))

  -- What issuing a token for the user makes of the map: the new digest stands for the user, every
  -- other digest for whom it stood, and one digest still has one row.
  abbrev pub IsIssued : String → String → T.Tab → T.Tab → Type 0
  IsIssued user token t u =
      ((now : ℕ) (digest : String)
        → holder T now digest u ≡ (
            if str_eq digest (env.hash_extension_token token)
            then some user
            else holder T now digest t))
      × IsUnique T u

  pub issue-holder :
      (user label : String) (at : ℕ) (t : T.Tab) (i : IssuedToken) (u : T.Tab)
      → IsUnique T t
      → issue_extension_token T env user label at t ≡ (ok i, u)
      → IsIssued user i.token t u
  unfolding issue_extension_token
  issue-holder user label at t i u unique e =
      let made = new_token env user label at in
      let (done, own) = created (T.create same_hash (env.fresh_id at) made t) at t i u e in
      (
        λ now digest.
            ap (live_user now) (create-find_by_hash T (env.fresh_id at) made t u done digest unique)
            ∙ (elim (Bool-cases (str_eq digest made.token_hash)) [
              | inl y ↦ rw (own, y) refl
              | inr n ↦ rw (own, n) refl
            ]),
        create-IsUnique T (env.fresh_id at) made t u done unique,
      )
