-- ===== src/Auth/Service/Logout.antt =====
-- What signing out leaves.
use crm_with_blockchain_rag.Base.{
  List, Option-cases, String, arith, eq_iff, inl, inr, ok, refl, some, sym, ℕ, ◌===◌, ◌∙◌, ◌∷◌, ◌≡◌,
  ◌≢◌,
}
use crm_with_blockchain_rag.Auth.Types.{RefreshSession, AuthClient, AuthDb}
use crm_with_blockchain_rag.Auth.Service.Sessions.{
  NoSession, delete_all_refresh_sessions-NoSession, refresh_all, refresh_all-NoSession,
}
use crm_with_blockchain_rag.Auth.Service.{
  Tokens, delete_all_refresh_sessions, consume_refresh_session, refresh_tokens, logout,
}

module _ (c : AuthClient) where
  -- The sessions of other users stay.
  delete_all_refresh_sessions-keeps :
      (user_id : String) (s : AuthDb c) (j : String) (x : RefreshSession)
      → c.session.find_unique j s.sessions ≡ some x
      → x.user_id ≢ user_id
      → c.session.find_unique j (delete_all_refresh_sessions c user_id s).sessions ≡ some x
  unfolding delete_all_refresh_sessions
  delete_all_refresh_sessions-keeps user_id s j x at apart =
      let after = c.session.delete_many_lem (λ y. y.user_id === user_id) s.sessions j in
      ground (arith, eq_iff x.user_id user_id)

  -- A user without a session gets no new tokens for an old one.
  pub refresh_tokens-refused :
      (now : ℕ) (user_id token : String) (s : AuthDb c) (r : Tokens)
      → NoSession c user_id s
      → (refresh_tokens c now user_id token s).0 ≢ ok r
  unfolding refresh_tokens consume_refresh_session
  refresh_tokens-refused now user_id token s r none_left done =
      let p = λ (y : RefreshSession). y.token_hash === c.crypto.sha256 token in
      elim (Option-cases (c.session.find_first p s.sessions)) [
        | inl missing ↦ ground arith
        | inr (x, found) ↦
            let (_, at) = c.session.find_first_sound p s.sessions x found in
            let foreign = none_left (c.session.key x) x at in
            elim (Option-cases (c.session.delete (c.session.key x) s.sessions)) [
              | inl missed ↦ ground arith
              | inr (t, deleted) ↦ elim (Option-cases (c.user.find_unique x.user_id s.users)) [
                | inl gone ↦ ground arith
                | inr (u, owner) ↦
                    let is_owner : u.id ≡ x.user_id =
                      sym (c.user_keyed u) ∙ c.user.find_unique_key x.user_id s.users u owner in
                    let other : u.id ≢ user_id = λ same. foreign (sym is_owner ∙ same) in
                    ground (arith, eq_iff u.id user_id)
              ]
            ]
      ]

  -- Signing out ends every session of the user, not only the one that it is called from, and no
  -- session of another user; the access token is handed to the blacklist, and after any number of
  -- attempts to refresh, by whatever users and with whatever tokens, no refresh token gets the user
  -- new tokens.
  pub logout_lem :
      (user_id access_token : String) (s : AuthDb c)
      → let s' = logout c user_id access_token s in
        NoSession c user_id s'
        × ((j : String) (x : RefreshSession)
            → c.session.find_unique j s.sessions ≡ some x
            → x.user_id ≢ user_id
            → c.session.find_unique j s'.sessions ≡ some x)
        × (s'.blacklisted ≡ access_token ∷ s.blacklisted)
        × ((attempts : List (ℕ × String × String)) (now : ℕ) (token : String) (r : Tokens)
            → (refresh_tokens c now user_id token (refresh_all c attempts s')).0 ≢ ok r)
  unfolding logout delete_all_refresh_sessions
  logout_lem user_id access_token s =
      let s₁ : AuthDb c = record s { blacklisted = access_token ∷ s.blacklisted } in
      let ends = delete_all_refresh_sessions-NoSession c user_id s₁ in
      (
        ends,
        λ j x at apart. delete_all_refresh_sessions-keeps user_id s₁ j x at apart,
        refl,
        λ attempts now token r.
            refresh_tokens-refused now user_id token
              (refresh_all c attempts (delete_all_refresh_sessions c user_id s₁)) r
              (refresh_all-NoSession c attempts user_id _ ends),
      )
