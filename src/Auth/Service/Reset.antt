-- ===== src/Auth/Service/Reset.antt =====
-- The reset of a password.
use crm_with_blockchain_rag.Base.{
  Bool-cases, Option-cases, String, ap, arith, err, false, inl, inr, ok, refl, some, sym, true, ℕ,
  ◌∙◌, ◌≡◌, ◌≤◌,
}
use crm_with_blockchain_rag.Auth.Types.{User, AuthClient, AuthDb, business_rule}
use crm_with_blockchain_rag.Auth.Service.{
  ResetPasswordDto, may_reset, with_password, delete_all_refresh_sessions, reset_password_atomic,
  reset_password,
}
use crm_with_blockchain_rag.Auth.Service.Sessions.{NoSession, delete_all_refresh_sessions-NoSession}

module _ (c : AuthClient) where
  with_password-key : (h : String) (u : User) → c.user.key (with_password h u) ≡ c.user.key u
  with_password-key h u = c.user_keyed (with_password h u) ∙ sym (c.user_keyed u)

  -- What allows a reset at a time allowed it at every time before.
  may_reset-earlier :
      (now later : ℕ) (token_hash : String) (u : User)
      → now ≤ later
      → may_reset later token_hash u ≡ true
      → may_reset now token_hash u ≡ true
  may_reset-earlier now later token_hash u h e = ground arith

  -- After the statement no row allows a reset with the token, then or later.
  spent :
      (now later : ℕ) (token_hash h : String) (s : AuthDb c) (j : String) (y : User)
      → now ≤ later
      → c.user.find_unique j
          (c.user.update_many (may_reset now token_hash) (with_password h) s.users)
        ≡ some y
      → may_reset later token_hash y ≡ false
  spent now later token_hash h s j y le at =
      let p = may_reset now token_hash in
      elim (Option-cases (c.user.find_unique j s.users)) [
        | inl missing ↦
            let still =
              c.user.update_many_none p (with_password h) s.users j (with_password-key h) missing in
            ground arith
        | inr (x, found) ↦
            let after =
              c.user.update_many_lem p (with_password h) s.users j x (with_password-key h) found in
            let early = may_reset-earlier now later token_hash x le in
            elim (Bool-cases (p x)) [
              | inl allowed ↦ let same : with_password h x ≡ y = ground arith in rw (← same) refl
              | inr refused ↦
                  let same : x ≡ y = ground arith in
                  elim (Bool-cases (may_reset later token_hash y)) [
                    | inr closed ↦ closed
                    | inl open_again ↦ let was = early (rw (← same) at open_again) in ground arith
                  ]
            ]
      ]

  sessions_only :
      (id : String) (s : AuthDb c) → (delete_all_refresh_sessions c id s).users ≡ s.users
  unfolding delete_all_refresh_sessions
  sessions_only id s = refl

  -- Where no row allows a reset, none is made.
  refused_later :
      (now : ℕ) (salt token password : String) (s : AuthDb c)
      → ((j : String) (y : User)
          → c.user.find_unique j s.users ≡ some y
          → may_reset now (c.crypto.sha256 token) y ≡ false)
      → (reset_password c now salt (record { token = token; password = password }) s).0
        ≡ err business_rule
  unfolding reset_password reset_password_atomic
  refused_later now salt token password s closed =
      elim (Option-cases (c.user.find_first (may_reset now (c.crypto.sha256 token)) s.users)) [
        | inl missing ↦ ground arith
        | inr (y, found) ↦
            let (allowed, there) =
              c.user.find_first_sound (may_reset now (c.crypto.sha256 token)) s.users y found in
            let never = closed (c.user.key y) y there in ground arith
      ]

  -- A reset that succeeds found a user with the token, which had not expired, and has stored this
  -- user with a hash of the new password, against which the password compares; the user has no
  -- session left, and the token does not work again, then or at any later time.
  pub reset_password_lem :
      (now : ℕ) (salt : String) (dto : ResetPasswordDto) (s s' : AuthDb c)
      → reset_password c now salt dto s ≡ (ok tt, s')
      → (u : User) × (c.user.find_unique u.id s.users ≡ some u)
        × (may_reset now (c.crypto.sha256 dto.token) u ≡ true)
        × (c.user.find_unique u.id s'.users
            ≡ some (with_password (c.crypto.hash salt dto.password) u))
        × (c.crypto.compare dto.password (c.crypto.hash salt dto.password) ≡ true)
        × NoSession c u.id s'
        × ((later : ℕ) (salt' password : String)
            → now ≤ later
            → (reset_password c later salt'
                (record { token = dto.token; password = password })
                s').0
              ≡ err business_rule)
  unfolding reset_password reset_password_atomic
  reset_password_lem now salt dto s s' e =
      let p = may_reset now (c.crypto.sha256 dto.token) in
      let h = c.crypto.hash salt dto.password in
      elim (Option-cases (c.user.find_first p s.users)) [
        | inl missing ↦ ground arith
        | inr (u, found) ↦
            let (allowed, at_key) = c.user.find_first_sound p s.users u found in
            let at : c.user.find_unique u.id s.users ≡ some u = rw (c.user_keyed u) at at_key in
            let after =
              c.user.update_many_lem p (with_password h) s.users u.id u (with_password-key h) at in
            let s₁ : AuthDb c = record s {
              users = c.user.update_many p (with_password h) s.users;
            } in
            let same : delete_all_refresh_sessions c u.id s₁ ≡ s' = ground arith in
            let users_kept : s'.users ≡ s₁.users =
              sym (ap (λ x. x.users) same) ∙ sessions_only u.id s₁ in
            (
              u,
              at,
              allowed,
              ground (arith, users_kept, after),
              c.crypto.compare_hash salt dto.password,
              rw same at (delete_all_refresh_sessions-NoSession c u.id s₁),
              λ later salt' password le.
                  refused_later later salt' dto.token password s' (λ j y there.
                    spent now later (c.crypto.sha256 dto.token) h s j y le
                      (rw users_kept at there)),
            )
      ]
