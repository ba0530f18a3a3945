-- ===== src/AccountServer/Http.antt =====
-- app/accountsrv/server.go: the handler of /login. A request is its method, two headers and its body;
-- `contains` and `to_lower` are those of package strings, the codecs protobuf's.
use globalmail.Prelude.{
  ℕ, Bool, ◌||◌, not, String, Option, none, some, ok, err, ◌==◌, string_eq, if◌then◌else◌,
}
use globalmail.Prelude.Int.{ℤ}
use globalmail.Types.{Time, Bytes}
use globalmail.AccountServer.{AccountService, TokenResponse, login_rpc}

pub record HttpRequest : Type 0 where
  pub method : String
  pub content_type : String
  pub accept : String
  pub body : Option Bytes

-- `none` is the body of an error message.
pub record HttpResponse : Type 0 where
  pub status : ℕ
  pub content_type : String
  pub body : Option Bytes

pub record HttpCodec : Type 0 where
  pub contains : String → String → Bool
  pub to_lower : String → String
  pub decode_proto : Bytes → Option (ℤ × ℤ)
  pub decode_json : Bytes → Option (ℤ × ℤ)
  pub encode_proto : TokenResponse → Option Bytes
  pub encode_json : TokenResponse → Option Bytes

abbrev pub http_error : ℕ → HttpResponse
http_error status = record { status = status; content_type = "text/plain"; body = none }

module _ (codec : HttpCodec) where
  open codec use {contains, to_lower, decode_proto, decode_json, encode_proto, encode_json}

  unfoldable pub is_binary_proto : String → Bool
  is_binary_proto content_type =
      let lower = to_lower content_type in
      contains lower "application/x-protobuf" || contains lower "application/protobuf"

  unfoldable pub read_proto_http : HttpRequest → Option (ℤ × ℤ)
  unfolding is_binary_proto
  read_proto_http r = elim r.body [
    | none ↦ none
    | some body ↦ if is_binary_proto r.content_type then decode_proto body else decode_json body
  ]

  -- An answer that cannot be encoded is an internal error.
  abbrev pub written : String → Option Bytes → HttpResponse
  written content_type none = http_error 500
  written content_type (some out) = record {
    status = 200;
    content_type = content_type;
    body = some out;
  }

  unfoldable pub write_proto_http : HttpRequest → TokenResponse → HttpResponse
  unfolding is_binary_proto
  write_proto_http r resp =
      if is_binary_proto r.accept
      then written "application/x-protobuf" (encode_proto resp)
      else written "application/json" (encode_json resp)

  -- The request's number of the user and of the server, once it is read.
  unfoldable pub handle_login :
      {W : Type 0} → AccountService W → (Time → String) → HttpRequest → W → HttpResponse × W
  unfolding read_proto_http write_proto_http
  handle_login service format r w =
      if not (r.method == "POST") then (http_error 405, w) else elim (read_proto_http r) [
        | none ↦ (http_error 400, w)
        | some (uid, server_id) ↦
            let (answered, w') = login_rpc service format uid server_id w in
            elim answered [ err e ↦ (http_error 500, w') | ok resp ↦ (write_proto_http r resp, w') ]
      ]
