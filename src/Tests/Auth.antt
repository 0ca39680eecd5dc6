-- ===== src/Tests/Auth.antt =====
-- crm-backend/src/modules/auth/auth.service.ts at concrete inputs.
use crm_with_blockchain_rag.Base.{
  List, String, [], arith, eq_iff, err, if◌then◌else◌, none, ok, refl, some, true, ℕ, ◌+++◌, ◌===◌,
  ◌==◌, ◌∷◌, ◌≡◌, ◌≢◌, ◌≤◌,
}
use crm_with_blockchain_rag.Prisma.{===_refl}
use crm_with_blockchain_rag.Prisma.Memory.Instance.{memory}
use crm_with_blockchain_rag.Auth.Types.{
  active, User, RefreshSession, Crypto, AuthClient, AuthDb, unauthorized, business_rule,
}
use crm_with_blockchain_rag.Auth.Service.{
  ResetPasswordDto, Tokens, may_reset, with_password, generate_tokens, find_by_email,
  update_last_login, login, consume_refresh_session, refresh_tokens, logout, reset_password_atomic,
  reset_password,
}
use crm_with_blockchain_rag.Auth.Service.Logout.{logout_lem}
use crm_with_blockchain_rag.Auth.Service.Sessions.{NoSession, refresh_all}
use crm_with_blockchain_rag.Auth.Service.Reset.{reset_password_lem}
use crm_with_blockchain_rag.Auth.Service.Rotation.{UniqueHashes, refresh_tokens-reused}

-- Hashes that leave their text as it is, and tokens that tell two times apart.
abbrev plain : Crypto
plain = record {
  hash = λ salt p. p;
  compare = λ p h. p === h;
  sha256 = λ t. t;
  sign_access = λ p n. if n == 5 then "a5" else "a9";
  sign_refresh = λ p n. if n == 5 then "r5" else "r9";
  lower = λ t. t;
  compare_hash = λ salt p. ===_refl p;
}

abbrev tables : AuthClient
tables = record {
  crypto = plain;
  refresh_days = 7;
  user = memory (λ u. u.id);
  session = memory (λ x. x.id);
  user_keyed = λ u. refl;
  session_keyed = λ x. refl;
}

abbrev user : String → String → User
user id email = record {
  id = id;
  tenant_id = "t1";
  email = email;
  password_hash = "old";
  role = "ADMIN";
  status = active;
  settings = record {
    password_reset_token_hash = some ("reset-" +++ id);
    password_reset_expires = some 100;
    others = [];
  };
  last_login_at = none;
}

abbrev session : String → String → String → RefreshSession
session id user_id token_hash = record {
  id = id;
  user_id = user_id;
  tenant_id = "t1";
  token_hash = token_hash;
  expires_at = 900;
}

abbrev start : AuthDb tables
start = record {
  users = record { rows = user "u1" "a@b" ∷ user "u2" "c@d" ∷ []; supply = [] };
  sessions = record {
    rows = session "x1" "u1" "r5" ∷ session "x2" "u2" "q5" ∷ [];
    supply = "x3" ∷ "x4" ∷ [];
  };
  blacklisted = [];
  mails = [];
}

-- The old password signs in.
login_u1 :
    (login tables 9 (record { email = "a@b"; password = "old" }) start).0
    ≡ ok (record { access_token = "a9"; refresh_token = "r9" })
unfolding login find_by_email generate_tokens update_last_login
login_u1 = refl

logout_lem_example :
    let s' = logout tables "u1" "a5" start in
    NoSession tables "u1" s'
    × ((j : String) (x : RefreshSession)
        → tables.session.find_unique j start.sessions ≡ some x
        → ◌≢◌ {A = String} x.user_id "u1"
        → tables.session.find_unique j s'.sessions ≡ some x)
    × (s'.blacklisted ≡ "a5" ∷ start.blacklisted)
    × ((attempts : List (ℕ × String × String)) (now : ℕ) (token : String) (r : Tokens)
        → (refresh_tokens tables now "u1" token (refresh_all tables attempts s')).0 ≢ ok r)
logout_lem_example = logout_lem tables "u1" "a5" start

abbrev new_password : ResetPasswordDto
new_password = record { token = "reset-u1"; password = "new" }

abbrev after_reset : AuthDb tables
after_reset = (reset_password tables 50 "salt" new_password start).1

reset_u1 : reset_password tables 50 "salt" new_password start ≡ (ok tt, after_reset)
unfolding reset_password reset_password_atomic
reset_u1 = refl

reset_password_lem_example :
    (u : User) × (tables.user.find_unique u.id start.users ≡ some u)
    × (may_reset 50 "reset-u1" u ≡ true)
    × (tables.user.find_unique u.id after_reset.users ≡ some (with_password "new" u))
    × (plain.compare "new" "new" ≡ true)
    × NoSession tables u.id after_reset
    × ((later : ℕ) (salt' password : String)
        → 50 ≤ later
        → (reset_password tables later salt'
            (record { token = "reset-u1"; password = password })
            after_reset).0
          ≡ err business_rule)
reset_password_lem_example =
    reset_password_lem tables 50 "salt" new_password start after_reset reset_u1

abbrev after_refresh : AuthDb tables
after_refresh = (refresh_tokens tables 9 "u1" "r5" start).1

refresh_u1 :
    refresh_tokens tables 9 "u1" "r5" start
    ≡ (ok (record { access_token = "a9"; refresh_token = "r9" }), after_refresh)
unfolding refresh_tokens consume_refresh_session generate_tokens
refresh_u1 = refl

UniqueHashes-start : UniqueHashes tables start
UniqueHashes-start j k x y at at' same = ground (
  arith,
  eq_iff "x1" j,
  eq_iff "x2" j,
  eq_iff "x1" k,
  eq_iff "x2" k,
  eq_iff "r5" "q5",
  eq_iff "q5" "r5",
)

refresh_tokens-reused_example :
    ((refresh_tokens tables 12 "u1" "r5" after_refresh).0 ≡ err unauthorized)
    × NoSession tables "u1" (refresh_tokens tables 12 "u1" "r5" after_refresh).1
refresh_tokens-reused_example =
    refresh_tokens-reused tables 9 12 "u1" "r5" start after_refresh
      (record { access_token = "a9"; refresh_token = "r9" }) UniqueHashes-start refresh_u1
      (λ same. ground (arith, eq_iff "r9" "r5"))
