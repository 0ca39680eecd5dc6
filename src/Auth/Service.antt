-- ===== src/Auth/Service.antt =====
-- crm-backend/src/modules/auth/auth.service.ts with auth.repository.ts. All its queries are made
-- outside the tenant scope, or in plain SQL. The salt of a hash and the random token of a reset are
-- arguments.
pub mod Sessions
pub mod Logout
pub mod Rotation
pub mod Reset
use crm_with_blockchain_rag.Base.{
  Bool, Option, Result, String, [], err, false, if◌then◌else◌, ltb, none, ok, some, true, ℕ, ◌&&◌,
  ◌*◌, ◌+◌, ◌===◌, ◌∷◌,
}
use crm_with_blockchain_rag.Auth.Types.{
  UserStatus, active, Settings, User, RefreshSession, JwtPayload, AuthClient, AuthDb, AuthError,
  unauthorized, business_rule, record_missing, constraint_violation,
}

-- What `login` takes.
pub record LoginDto : Type 0 where
  pub email : String
  pub password : String

-- What `resetPassword` takes.
pub record ResetPasswordDto : Type 0 where
  pub token : String
  pub password : String

pub record Tokens : Type 0 where
  pub access_token : String
  pub refresh_token : String

abbrev pub is_active : UserStatus → Bool
is_active active = true
is_active _ = false

abbrev pub payload_of : User → JwtPayload
payload_of u = record { sub = u.id; email = u.email; tenant_id = u.tenant_id; role = u.role }

-- `createPasswordResetToken` replaces the whole column.
abbrev pub with_reset : String → ℕ → User → User
with_reset token_hash expires_at u = record u {
  settings = record {
    password_reset_token_hash = some token_hash;
    password_reset_expires = some expires_at;
    others = [];
  };
}

-- The condition of the SQL of `resetPasswordAtomic`.
abbrev pub may_reset : ℕ → String → User → Bool
may_reset now token_hash u = elim (u.settings.password_reset_token_hash) [
  | none ↦ false
  | some h ↦ elim (u.settings.password_reset_expires) [
    | none ↦ false
    | some t ↦ h === token_hash && ltb now t
  ]
]

-- Its `SET`.
abbrev pub with_password : String → User → User
with_password password_hash u = record u {
  password_hash = password_hash;
  settings = record u.settings { password_reset_token_hash = none; password_reset_expires = none };
}

module _ (c : AuthClient) where
  abbrev pub AuthOutcome : Type 0 → Type 0
  AuthOutcome A = Result AuthError A × AuthDb c

  unfoldable pub find_by_email : String → AuthDb c → Option User
  find_by_email email s = c.user.find_first (λ u. u.email === email) s.users

  -- The session that `createRefreshSession` makes.
  abbrev pub session_of : ℕ → User → String → RefreshSession
  session_of now u id = record {
    id = id;
    user_id = u.id;
    tenant_id = u.tenant_id;
    token_hash = c.crypto.sha256 (c.crypto.sign_refresh (payload_of u) now);
    expires_at = now + c.refresh_days * 86_400_000;
  }

  unfoldable pub generate_tokens : ℕ → User → AuthDb c → AuthOutcome Tokens
  generate_tokens now u s = elim (c.session.create (session_of now u) s.sessions) [
    | none ↦ (err constraint_violation, s)
    | some (x, t) ↦ (
      ok (record {
        access_token = c.crypto.sign_access (payload_of u) now;
        refresh_token = c.crypto.sign_refresh (payload_of u) now;
      }),
      record s { sessions = t },
    )
  ]

  unfoldable pub update_last_login : ℕ → String → AuthDb c → Option (AuthDb c)
  update_last_login now user_id s =
      elim (c.user.update user_id (λ u. record u { last_login_at = some now }) s.users) [
        | none ↦ none
        | some (u, t) ↦ some (record s { users = t })
      ]

  unfoldable pub login : ℕ → LoginDto → AuthDb c → AuthOutcome Tokens
  login now dto s = elim (find_by_email (c.crypto.lower dto.email) s) [
    | none ↦ (err unauthorized, s)
    | some u ↦
        if c.crypto.compare dto.password u.password_hash && is_active u.status
        then (let (r, s₁) = generate_tokens now u s in
            elim r [
              | err e ↦ (err e, s₁)
              | ok tokens ↦ elim (update_last_login now u.id s₁) [
                | none ↦ (err record_missing, s₁)
                | some s₂ ↦ (ok tokens, s₂)
              ]
            ])
        else (err unauthorized, s)
  ]

  unfoldable pub delete_all_refresh_sessions : String → AuthDb c → AuthDb c
  delete_all_refresh_sessions user_id s = record s {
    sessions = c.session.delete_many (λ x. x.user_id === user_id) s.sessions;
  }

  -- `consumeRefreshSession`: the session is found, and then deleted. The database keeps the user of a
  -- session as long as the session.
  unfoldable pub consume_refresh_session :
      String → AuthDb c → Result AuthError (Option User) × AuthDb c
  consume_refresh_session token_hash s =
      elim (c.session.find_first (λ x. x.token_hash === token_hash) s.sessions) [
        | none ↦ (ok none, s)
        | some x ↦ elim (c.session.delete (c.session.key x) s.sessions) [
          | none ↦ (err record_missing, s)
          | some t ↦ (ok (c.user.find_unique x.user_id s.users), record s { sessions = t })
        ]
      ]

  unfoldable pub refresh_tokens : ℕ → String → String → AuthDb c → AuthOutcome Tokens
  refresh_tokens now user_id refresh_token s =
      let (r, s₁) = consume_refresh_session (c.crypto.sha256 refresh_token) s in
      elim r [
        | err e ↦ (err e, s₁)
        | ok found ↦ elim found [
          | none ↦ (err unauthorized, delete_all_refresh_sessions user_id s₁)
          | some u ↦
              if u.id === user_id
              then generate_tokens now u s₁
              else (err unauthorized, delete_all_refresh_sessions user_id s₁)
        ]
      ]

  unfoldable pub logout : String → String → AuthDb c → AuthDb c
  logout user_id access_token s =
      delete_all_refresh_sessions user_id (record s { blacklisted = access_token ∷ s.blacklisted })

  unfoldable pub create_password_reset_token : ℕ → String → String → AuthDb c → Option (AuthDb c)
  create_password_reset_token now token user_id s =
      elim (c.user.update user_id (with_reset (c.crypto.sha256 token) (now + 3_600_000)) s.users) [
        | none ↦ none
        | some (u, t) ↦ some (record s { users = t })
      ]

  unfoldable pub forgot_password : ℕ → String → String → AuthDb c → AuthOutcome (Unit {0})
  forgot_password now token email s = elim (find_by_email (c.crypto.lower email) s) [
    | none ↦ (ok tt, s)
    | some u ↦ elim (create_password_reset_token now token u.id s) [
      | none ↦ (err record_missing, s)
      | some s₁ ↦ (ok tt, record s₁ { mails = (u.email, token) ∷ s₁.mails })
    ]
  ]

  -- `resetPasswordAtomic`: one statement, and the id in the first row that it returns.
  unfoldable pub reset_password_atomic : ℕ → String → String → AuthDb c → Option String × AuthDb c
  reset_password_atomic now raw_token password_hash s =
      let token_hash = c.crypto.sha256 raw_token in
      let t = c.user.update_many (may_reset now token_hash) (with_password password_hash) s.users in
      (
        elim (c.user.find_first (may_reset now token_hash) s.users) [
          | none ↦ none
          | some u ↦ some u.id
        ],
        record s { users = t },
      )

  unfoldable pub reset_password : ℕ → String → ResetPasswordDto → AuthDb c → AuthOutcome (Unit {0})
  reset_password now salt dto s =
      let (found, s₁) = reset_password_atomic now dto.token (c.crypto.hash salt dto.password) s in
      elim found [
        | none ↦ (err business_rule, s₁)
        | some id ↦ (ok tt, delete_all_refresh_sessions id s₁)
      ]
