-- ===== src/Auth/Service/Sessions.antt =====
-- Users without a session, and what keeps them so.
use crm_with_blockchain_rag.Base.{
  Bool-cases, List, Option-cases, String, [], ap, arith, eq_iff, inl, inr, some, sym, ℕ, ◌===◌, ◌∙◌,
  ◌∷◌, ◌≡◌, ◌≢◌,
}
use crm_with_blockchain_rag.Auth.Types.{User, RefreshSession, AuthClient, AuthDb}
use crm_with_blockchain_rag.Auth.Service.{
  session_of, generate_tokens, delete_all_refresh_sessions, consume_refresh_session, refresh_tokens,
}

module _ (c : AuthClient) where
  -- The user has no session.
  abbrev pub NoSession : String → AuthDb c → Type 0
  NoSession user_id s =
      (j : String) (x : RefreshSession)
      → c.session.find_unique j s.sessions ≡ some x
      → x.user_id ≢ user_id

  pub delete_all_refresh_sessions-NoSession :
      (user_id : String) (s : AuthDb c)
      → NoSession user_id (delete_all_refresh_sessions c user_id s)
  unfolding delete_all_refresh_sessions
  delete_all_refresh_sessions-NoSession user_id s j x at same =
      let after = c.session.delete_many_lem (λ y. y.user_id === user_id) s.sessions j in
      elim (Option-cases (c.session.find_unique j s.sessions)) [
        | inl missing ↦ ground arith
        | inr (y, found) ↦ ground (arith, eq_iff y.user_id user_id)
      ]

  deleted_fewer :
      (k : String) (s : AuthDb c) (t : c.session.State) (j : String) (x : RefreshSession)
      → c.session.delete k s.sessions ≡ some t
      → c.session.find_unique j t ≡ some x
      → c.session.find_unique j s.sessions ≡ some x
  deleted_fewer k s t j x deleted at =
      let (_, after) = c.session.delete_some k s.sessions t deleted in
      ground (arith, after j, eq_iff k j)

  delete_all_keeps :
      (user_id owner : String) (s : AuthDb c)
      → NoSession user_id s
      → NoSession user_id (delete_all_refresh_sessions c owner s)
  unfolding delete_all_refresh_sessions
  delete_all_keeps user_id owner s none_left j x at =
      let after = c.session.delete_many_lem (λ y. y.user_id === owner) s.sessions j in
      elim (Option-cases (c.session.find_unique j s.sessions)) [
        | inl missing ↦ ground arith
        | inr (y, found) ↦ none_left j x (ground arith)
      ]

  -- New tokens of another user bring no session of this one.
  issued-NoSession :
      (now : ℕ) (user_id : String) (u : User) (s : AuthDb c)
      → u.id ≢ user_id
      → NoSession user_id s
      → NoSession user_id (generate_tokens c now u s).1
  unfolding generate_tokens
  issued-NoSession now user_id u s other none_left j x at same =
      elim (Option-cases (c.session.create (session_of c now u) s.sessions)) [
        | inl refused ↦ none_left j x (ground arith) same
        | inr ((y, t), created) ↦
            let (whole, _, after) =
              c.session.create_lem (session_of c now u) s.sessions t y
                (λ i. c.session_keyed (session_of c now u i)) created in
            elim (Bool-cases (c.session.key y === j)) [
              | inl here ↦
                  let is_y : y ≡ x = ground (arith, after j) in
                  other (sym (ap (λ z. z.user_id) whole) ∙ ap (λ z. z.user_id) is_y ∙ same)
              | inr away ↦ none_left j x (ground (arith, after j)) same
            ]
      ]

  -- A refresh, by whatever user and with whatever token, gives a user without a session none.
  refresh_tokens-NoSession :
      (now : ℕ) (user_id caller token : String) (s : AuthDb c)
      → NoSession user_id s
      → NoSession user_id (refresh_tokens c now caller token s).1
  unfolding refresh_tokens consume_refresh_session
  refresh_tokens-NoSession now user_id caller token s none_left =
      let p = λ (y : RefreshSession). y.token_hash === c.crypto.sha256 token in
      let after = (refresh_tokens c now caller token s).1 in
      elim (Option-cases (c.session.find_first p s.sessions)) [
        | inl missing ↦
            let same : after ≡ delete_all_refresh_sessions c caller s = ground arith in
            rw same (delete_all_keeps user_id caller s none_left)
        | inr (x, found) ↦
            let (_, at) = c.session.find_first_sound p s.sessions x found in
            let foreign = none_left (c.session.key x) x at in
            elim (Option-cases (c.session.delete (c.session.key x) s.sessions)) [
              | inl missed ↦ let same : after ≡ s = ground arith in rw same none_left
              | inr (t, deleted) ↦
                  let s₁ : AuthDb c = record s { sessions = t } in
                  let left : NoSession user_id s₁ = λ j y there.
                    none_left j y (deleted_fewer (c.session.key x) s t j y deleted there) in
                  elim (Option-cases (c.user.find_unique x.user_id s.users)) [
                    | inl gone ↦
                        let same : after ≡ delete_all_refresh_sessions c caller s₁ = ground arith in
                        rw same (delete_all_keeps user_id caller s₁ left)
                    | inr (u, owner) ↦
                        let is_owner = c.user.find_unique_key x.user_id s.users u owner in
                        let other : u.id ≢ user_id =
                          λ e. foreign (sym is_owner ∙ c.user_keyed u ∙ e) in
                        elim (Bool-cases (u.id === caller)) [
                          | inl own ↦
                              let same : after ≡ (generate_tokens c now u s₁).1 = ground arith in
                              rw same (issued-NoSession now user_id u s₁ other left)
                          | inr not_own ↦
                              let same : after ≡ delete_all_refresh_sessions c caller s₁ =
                                ground arith in
                              rw same (delete_all_keeps user_id caller s₁ left)
                        ]
                  ]
            ]
      ]

  -- The state after attempts to refresh, each by a time, a user and a token.
  pub refresh_all : List (ℕ × String × String) → AuthDb c → AuthDb c
  refresh_all [] s = s
  refresh_all ((now, caller, token) ∷ rest) s =
      refresh_all rest (refresh_tokens c now caller token s).1

  pub refresh_all-NoSession :
      (attempts : List (ℕ × String × String)) (user_id : String) (s : AuthDb c)
      → NoSession user_id s
      → NoSession user_id (refresh_all attempts s)
  unfolding refresh_all
  refresh_all-NoSession [] user_id s h = h
  refresh_all-NoSession ((now, caller, token) ∷ rest) user_id s h =
      refresh_all-NoSession rest user_id _ (refresh_tokens-NoSession now user_id caller token s h)
