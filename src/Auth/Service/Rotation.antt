-- ===== src/Auth/Service/Rotation.antt =====
-- The rotation of refresh tokens.
use crm_with_blockchain_rag.Base.{
  Bool-cases, Option-cases, String, ap, arith, eq_iff, err, inl, inr, ok, some, subst, sym, ℕ,
  ◌===◌, ◌∙◌, ◌≡◌, ◌≢◌,
}
use crm_with_blockchain_rag.Auth.Types.{User, RefreshSession, AuthClient, AuthDb, unauthorized}
use crm_with_blockchain_rag.Auth.Service.{
  Tokens, session_of, generate_tokens, delete_all_refresh_sessions, consume_refresh_session,
  refresh_tokens, payload_of,
}
use crm_with_blockchain_rag.Auth.Service.Sessions.{NoSession, delete_all_refresh_sessions-NoSession}

module _ (c : AuthClient) where
  -- The hashes of the sessions are different, as the unique column has it.
  abbrev pub UniqueHashes : AuthDb c → Type 0
  UniqueHashes s =
      (j k : String) (x y : RefreshSession)
      → c.session.find_unique j s.sessions ≡ some x
      → c.session.find_unique k s.sessions ≡ some y
      → x.token_hash ≡ y.token_hash
      → j ≡ k

  -- No session has the hash.
  abbrev NoHash : String → AuthDb c → Type 0
  NoHash h s =
      (j : String) (x : RefreshSession)
      → c.session.find_unique j s.sessions ≡ some x
      → x.token_hash ≢ h

  -- The one session of a hash is gone with it.
  consumed :
      (h : String) (s : AuthDb c) (t : c.session.State) (x : RefreshSession)
      → UniqueHashes s
      → c.session.find_first (λ y. y.token_hash === h) s.sessions ≡ some x
      → c.session.delete (c.session.key x) s.sessions ≡ some t
      → NoHash h (record s { sessions = t })
  consumed h s t x unique found deleted j z there same =
      let (holds, at) = c.session.find_first_sound (λ y. y.token_hash === h) s.sessions x found in
      let (_, after) = c.session.delete_some (c.session.key x) s.sessions t deleted in
      elim (Bool-cases (c.session.key x === j)) [
        | inl here ↦ ground (arith, after j)
        | inr away ↦
            let before : c.session.find_unique j s.sessions ≡ some z = ground (arith, after j) in
            let one =
              unique (c.session.key x) j x z at before
                ((eq_iff x.token_hash h).0 holds ∙ sym same) in
            ground (arith, eq_iff (c.session.key x) j)
      ]

  -- New tokens bring no session but their own.
  issued :
      (now : ℕ) (u : User) (h : String) (s s' : AuthDb c) (r : Tokens)
      → generate_tokens c now u s ≡ (ok r, s')
      → c.crypto.sha256 r.refresh_token ≢ h
      → NoHash h s
      → NoHash h s'
  unfolding generate_tokens
  issued now u h s s' r made fresh none_before j z there same =
      elim (Option-cases (c.session.create (session_of c now u) s.sessions)) [
        | inl refused ↦ ground arith
        | inr ((y, t), created) ↦
            let (whole, _, after) =
              c.session.create_lem (session_of c now u) s.sessions t y
                (λ i. c.session_keyed (session_of c now u i)) created in
            elim (Bool-cases (c.session.key y === j)) [
              | inl here ↦
                  let hash_y : y.token_hash ≡ c.crypto.sha256 r.refresh_token =
                    ap (λ q. q.token_hash) whole
                    ∙ (let signed : c.crypto.sign_refresh (payload_of u) now ≡ r.refresh_token =
                          ground arith in
                        ap c.crypto.sha256 signed) in
                  let same_row : y ≡ z = ground (arith, after j) in
                  fresh (sym hash_y ∙ ap (λ q. q.token_hash) same_row ∙ same)
              | inr away ↦ none_before j z (ground (arith, after j)) same
            ]
      ]

  reused :
      (now : ℕ) (user_id token : String) (s : AuthDb c)
      → NoHash (c.crypto.sha256 token) s
      → refresh_tokens c now user_id token s
        ≡ (err unauthorized, delete_all_refresh_sessions c user_id s)
  unfolding refresh_tokens consume_refresh_session
  reused now user_id token s none_left =
      let p = λ (y : RefreshSession). y.token_hash === c.crypto.sha256 token in
      elim (Option-cases (c.session.find_first p s.sessions)) [
        | inl missing ↦ ground arith
        | inr (x, found) ↦
            let (holds, at) = c.session.find_first_sound p s.sessions x found in
            absurd (
              none_left (c.session.key x) x at
                ((eq_iff x.token_hash (c.crypto.sha256 token)).0 holds))
      ]

  rotated :
      (now : ℕ) (user_id token : String) (s s' : AuthDb c) (r : Tokens)
      → UniqueHashes s
      → refresh_tokens c now user_id token s ≡ (ok r, s')
      → c.crypto.sha256 r.refresh_token ≢ c.crypto.sha256 token
      → NoHash (c.crypto.sha256 token) s'
  unfolding refresh_tokens consume_refresh_session
  rotated now user_id token s s' r unique first fresh =
      let h = c.crypto.sha256 token in
      elim (Option-cases (c.session.find_first (λ y. y.token_hash === h) s.sessions)) [
        | inl missing ↦ ground arith
        | inr (x, found) ↦ elim (Option-cases (c.session.delete (c.session.key x) s.sessions)) [
          | inl missed ↦ ground arith
          | inr (t, deleted) ↦ elim (Option-cases (c.user.find_unique x.user_id s.users)) [
            | inl gone ↦ ground arith
            | inr (u, owner) ↦
                let s₁ : AuthDb c = record s { sessions = t } in
                let made : generate_tokens c now u s₁ ≡ (ok r, s') = ground arith in
                issued now u h s₁ s' r made fresh (consumed h s t x unique found deleted)
          ]
        ]
      ]

  -- A refresh token that got its user new ones, with a hash of their own, works once: used again at
  -- any time before other calls it is refused, and every session of the user ends, also that of the
  -- new token.
  pub refresh_tokens-reused :
      (now later : ℕ) (user_id token : String) (s s' : AuthDb c) (r : Tokens)
      → UniqueHashes s
      → refresh_tokens c now user_id token s ≡ (ok r, s')
      → c.crypto.sha256 r.refresh_token ≢ c.crypto.sha256 token
      → ((refresh_tokens c later user_id token s').0 ≡ err unauthorized)
        × NoSession c user_id (refresh_tokens c later user_id token s').1
  refresh_tokens-reused now later user_id token s s' r unique first fresh =
      let spent = rotated now user_id token s s' r unique first fresh in
      let again = reused later user_id token s' spent in
      (
        ap (λ o. o.0) again,
        subst (λ o. NoSession c user_id o.1) (sym again)
            (delete_all_refresh_sessions-NoSession c user_id s'),
      )
