-- ===== src/AccountServer/Tokens.antt =====
-- app/accountsrv/service.go with data/redis/routing.go: what a login leaves in Redis.
use globalmail.Prelude.{◌+◌, String, ◌≡◌, arith, Option, some, ok, Action, pure, >>=-eq-ok}
use globalmail.Prelude.Int.{ℤ, pos, wrap32}
use globalmail.Types.{Time, Bytes, Error, LoginToken}
use globalmail.Accounts.{LoginResponse}
use globalmail.AccountServer.{AccountService, LoginResult, login_token, login_result, account_login}
use globalmail.Redis.Client.{RedisClient, RedisView, IsRedis}
use globalmail.Redis.Client
use globalmail.Redis.Lifetimes.{routing_ttl}
use globalmail.Redis.Repository.{decoded}
use globalmail.Redis.Routing.{RoutingCodec, get_login_token, set_login_token}

module _ {W : Type 0} (client : RedisClient W) (codec : RoutingCodec) (clock : W → Time)
    (view : RedisView W) (law : IsRedis client view) where
  -- A token that was set is the one that is found under its name.
  set-get_login_token :
      (token : LoginToken) (payload : Bytes) (ttl : ℤ) (found : Option LoginToken) (w w' w'' : W)
      → codec.encode_token token ≡ some payload
      → codec.decode_token payload ≡ some token
      → set_login_token client codec clock token ttl w ≡ (ok tt, w')
      → get_login_token client codec clock token.token w' ≡ (ok found, w'')
      → found ≡ some token
  unfolding set_login_token get_login_token
  set-get_login_token token payload ttl found w w' w'' enc dec s g =
      let k = Client.login_token token.token in
      let l =
        law.set_ok k payload (routing_ttl ttl token.expire_at (clock w)) w w'
          (ground (arith, s, enc)) in
      let (v, w₁, e, f) = >>=-eq-ok (client.get k) (decoded codec.decode_token) w' w'' found g in
      let z = law.get_ok k v w' w₁ e in ground (arith, f, z, l, dec)

  -- Of a service that keeps its tokens in Redis, where the player server answers the login and the
  -- random source a name: if the login succeeds, what Redis holds under that name right after is a
  -- token of this name, for the user, the role and the server that the player server answered, which
  -- ends when the time to live of the service has passed since its clock was read; and it is the
  -- token that the login answers. What is encoded of it decodes to it.
  pub account_login-get_login_token :
      (service : AccountService W) (uid server_id : ℤ) (login : LoginResponse) (name : String)
      (result : LoginResult) (payload : Bytes) (found : Option LoginToken) (w w₁ w₂ w' w'' : W)
      → service.set_login_token ≡ set_login_token client codec clock
      → service.login_game uid (wrap32 server_id) w ≡ (ok login, w₁)
      → service.random_token w₁ ≡ (ok name, w₂)
      → codec.encode_token result.token ≡ some payload
      → codec.decode_token payload ≡ some result.token
      → account_login service uid server_id w ≡ (ok result, w')
      → get_login_token client codec clock name w' ≡ (ok found, w'')
      → (found
          ≡ some (record {
            token = name;
            uid = login.uid;
            role_id = login.role_id;
            server_id = login.server_id;
            expire_at = service.clock w₂ + service.ttl;
          }))
        × ((found ≡ some result.token) × (result.is_new_user ≡ login.is_new_user))
  unfolding account_login login_result
  account_login-get_login_token service uid server_id login name result payload found w w₁ w₂ w' w''
        s game random enc dec h g =
      let value = login_token service login name (service.clock w₂) in
      let answer : Unit {0} → Action W Error LoginResult =
        λ _. pure (record { token = value; is_new_user = login.is_new_user }) in
      let from_token : login_result service login name w₂ ≡ (ok result, w') =
        ground (arith, h, game, random) in
      let (u, w₃, e, f) =
        >>=-eq-ok (service.set_login_token value (pos service.ttl)) answer w₂ w' result
          from_token in
      let same : result.token ≡ value = ground (arith, f) in
      let set : set_login_token client codec clock result.token (pos service.ttl) w₂ ≡ (ok tt, w') =
        ground (arith, s, e, f, same) in
      let g' : get_login_token client codec clock result.token.token w' ≡ (ok found, w'') =
        ground (arith, g, same) in
      let z : found ≡ some result.token =
        set-get_login_token result.token payload (pos service.ttl) found w₂ w' w'' enc dec set g' in
      (ground (arith, z, same), (z, ground (arith, f)))
