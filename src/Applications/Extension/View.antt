-- ===== src/Applications/Extension/View.antt =====
-- The table of tokens as a partial map from digests to users: what each operation does to it.
use internship_pilot.Prelude.{
  ℕ, ◌≡◌, ◌≢◌, refl, sym, ap, ◌∙◌, ◌||◌, Bool, false, Option, none, some, String, str_eq, eq_iff,
  is_some, if◌then◌else◌, Bool-cases, Option-cases, inl, inr,
}
use mathlib.Core.Option.{some-injective}
use internship_pilot.Database.{Table, patched}
use internship_pilot.Applications.Extension.{Token, is_expired, find_by_hash}

-- The user for whom a row stands, unless it is revoked or expired.
abbrev pub live_user : ℕ → Option (String × Token) → Option String
live_user now none = none
live_user now (some (id, r)) =
    if is_some r.revoked_at || is_expired now r.expires_at then none else some r.user_id

-- A found row after a change of the rows that fit.
abbrev pub changed :
    (String → Token → Bool) → (Token → Token) → Option (String × Token) → Option (String × Token)
changed w f none = none
changed w f (some (id, r)) = some (id, if w id r then f r else r)

abbrev pub hit : (String → Token → Bool) → Option (String × Token) → Bool
hit w none = false
hit w (some (id, r)) = w id r

module _ (T : Table Token) where
  -- The map that the table stands for, at one instant.
  abbrev pub holder : ℕ → String → T.Tab → Option String
  holder now digest t = live_user now (find_by_hash T digest t)

  -- No two rows have one digest.
  abbrev pub IsUnique : T.Tab → Type 0
  IsUnique t =
      (j k : String) (a b : Token)
      → T.find_unique j t ≡ some a
      → T.find_unique k t ≡ some b
      → a.token_hash ≡ b.token_hash
      → j ≡ k

  pub found_row :
      (digest : String) (t : T.Tab) (k : String) (r : Token)
      → find_by_hash T digest t ≡ some (k, r)
      → (T.find_unique k t ≡ some r) × (r.token_hash ≡ digest)
  unfolding find_by_hash
  found_row digest t k r e =
      let (f, h) = T.find_first_sound (λ _ r. str_eq r.token_hash digest) (λ _ _. false) t k r e in
      (f, (eq_iff r.token_hash digest).0 h)

  pub known_row :
      (digest : String) (t : T.Tab) (k : String) (r : Token)
      → IsUnique t
      → T.find_unique k t ≡ some r
      → r.token_hash ≡ digest
      → find_by_hash T digest t ≡ some (k, r)
  unfolding find_by_hash
  known_row digest t k r unique f h = elim (Option-cases (find_by_hash T digest t)) [
    | inl n ↦
        let other =
          T.find_first_none (λ _ r. str_eq r.token_hash digest) (λ _ _. false) t k r n f in
        let own = (eq_iff r.token_hash digest).1 h in cc
    | inr ((j, s), e) ↦
        let (g, i) = found_row digest t j s e in
        let same = unique j k s r g f (i ∙ sym h) in
        let rows = some-injective _ _ (sym g ∙ (ap (λ x. T.find_unique x t) same ∙ f)) in
        e ∙ (ap (λ x. some (x, s)) same ∙ ap (λ x. some (k, x)) rows)
  ]

  pub unknown_row :
      (digest : String) (t : T.Tab)
      → ((k : String) (r : Token) → T.find_unique k t ≡ some r → r.token_hash ≢ digest)
      → find_by_hash T digest t ≡ none
  unknown_row digest t nowhere = elim (Option-cases (find_by_hash T digest t)) [
    | inl n ↦ n
    | inr ((k, r), e) ↦ let (f, h) = found_row digest t k r e in absurd (nowhere k r f h)
  ]

  pub absent_row :
      (digest : String) (t : T.Tab) (k : String) (r : Token)
      → find_by_hash T digest t ≡ none
      → T.find_unique k t ≡ some r
      → r.token_hash ≢ digest
  unfolding find_by_hash
  absent_row digest t k r n f h =
      let other = T.find_first_none (λ _ r. str_eq r.token_hash digest) (λ _ _. false) t k r n f in
      let own = (eq_iff r.token_hash digest).1 h in cc

  module _ (w : String → Token → Bool) (f : Token → Token) where
    abbrev pub KeepsHash : Type 0
    KeepsHash = (r : Token) → (f r).token_hash ≡ r.token_hash

    abbrev pub Changes : T.Tab → T.Tab → Type 0
    Changes t u = (k : String) → T.find_unique k u ≡ patched (w k) f (T.find_unique k t)

    before :
        (b : Token → Bool) (o : Option Token) (r : Token)
        → KeepsHash
        → patched b f o ≡ some r
        → (q : Token) × (o ≡ some q) × (r.token_hash ≡ q.token_hash)
    before b none r same e = cc
    before b (some q) r same e = elim (Bool-cases (b q)) [
      | inl y ↦
          let row = some-injective _ _ (rw y at e) in
          (q, refl, ap (λ x. x.token_hash) (sym row) ∙ same q)
      | inr n ↦
          let row = some-injective _ _ (rw n at e) in (q, refl, ap (λ x. x.token_hash) (sym row))
    ]

    pub changed-IsUnique : (t u : T.Tab) → KeepsHash → Changes t u → IsUnique t → IsUnique u
    changed-IsUnique t u same step unique j k a b f g h =
        let (p, p_row, p_hash) = before (w j) (T.find_unique j t) a same (sym (step j) ∙ f) in
        let (q, q_row, q_hash) = before (w k) (T.find_unique k t) b same (sym (step k) ∙ g) in
        unique j k p q p_row q_row (sym p_hash ∙ (h ∙ q_hash))

    pub changed-find_by_hash :
        (t u : T.Tab) (digest : String)
        → KeepsHash
        → Changes t u
        → IsUnique t
        → find_by_hash T digest u ≡ changed w f (find_by_hash T digest t)
    changed-find_by_hash t u digest same step unique =
        elim (Option-cases (find_by_hash T digest t)) [
          | inl n ↦ rw n (
              unknown_row digest u (λ k r g h.
                let (q, q_row, q_hash) =
                  before (w k) (T.find_unique k t) r same (sym (step k) ∙ g) in
                absent_row digest t k q n q_row (sym q_hash ∙ h)))
          | inr ((k, r), e) ↦
              let (g, h) = found_row digest t k r e in
              let now = if w k r then f r else r in
              let row : T.find_unique k u ≡ some now = step k ∙ ap (patched (w k) f) g in
              let kept : now.token_hash ≡ r.token_hash = elim (Bool-cases (w k r)) [
                | inl y ↦ rw y (same r)
                | inr n ↦ rw n refl
              ] in
              rw e (known_row digest u k now (changed-IsUnique t u same step unique) row (kept ∙ h))
        ]
