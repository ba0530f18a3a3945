-- ===== src/AccountServer.antt =====
-- app/accountsrv: the login that hands out a token. The player server's Login, the token store and
-- the random source are calls of the service; `clock` is what time.Now answers.
use globalmail.Prelude.{
  ℕ, ◌+◌, Bool, String, Option, none, some, Result, ok, err, Action, pure, ◌>>=◌, ◌>>◌, ◌==◌,
  string_eq, if◌then◌else◌,
}
use globalmail.Prelude.Int.{ℤ, pos, positive_or, wrap32}
use globalmail.Types.{Time, Bytes, Error, LoginToken}
use globalmail.Accounts.{LoginResponse}
pub mod Http
pub mod Tokens

pub record AccountService (W : Type 0) : Type 0 where
  pub set_login_token : LoginToken → ℤ → Action W Error (Unit {0})
  pub login_game : ℤ → ℤ → Action W Error LoginResponse
  pub random_token : Action W Error String
  pub ttl : ℕ
  pub clock : W → Time

pub record LoginResult : Type 0 where
  pub token : LoginToken
  pub is_new_user : Bool

pub record TokenResponse : Type 0 where
  pub token : String
  pub uid : ℤ
  pub role_id : ℤ
  pub server_id : ℤ
  pub is_new_user : Bool
  pub expire_at : String

unfoldable pub new_account_service :
    {W : Type 0}
    → (LoginToken → ℤ → Action W Error (Unit {0}))
    → (ℤ → ℤ → Action W Error LoginResponse)
    → Action W Error String
    → (W → Time)
    → ℤ
    → AccountService W
new_account_service set_login_token login_game random_token clock ttl = record {
  set_login_token = set_login_token;
  login_game = login_game;
  random_token = random_token;
  ttl = positive_or ttl 120000000000;
  clock = clock;
}

module _ {W : Type 0} (service : AccountService W) where
  open service use {set_login_token, login_game, random_token, ttl, clock}

  -- The token for the player that the player server has answered.
  abbrev pub login_token : LoginResponse → String → Time → LoginToken
  login_token login token now = record {
    token = token;
    uid = login.uid;
    role_id = login.role_id;
    server_id = login.server_id;
    expire_at = now + ttl;
  }

  unfoldable pub login_result : LoginResponse → String → Action W Error LoginResult
  login_result login token w =
      let value = login_token login token (clock w) in
      (do
        set_login_token value (pos ttl)
        pure (record { token = value; is_new_user = login.is_new_user }))
        w

  unfoldable pub account_login : ℤ → ℤ → Action W Error LoginResult
  unfolding login_result
  account_login uid server_id = do
    login ← login_game uid (wrap32 server_id)
    token ← random_token
    login_result login token

  unfoldable pub login_rpc : (Time → String) → ℤ → ℤ → Action W Error TokenResponse
  unfolding account_login
  login_rpc format uid server_id = do
    result ← account_login uid server_id
    let token = result.token
    pure (record {
      token = token.token;
      uid = token.uid;
      role_id = token.role_id;
      server_id = wrap32 token.server_id;
      is_new_user = result.is_new_user;
      expire_at = format token.expire_at;
    })
