-- ===== src/MsgGateway/Admission.antt =====
-- internal/msggateway/n_ws_server.go, `wsHandler`, and pkg/authverify/token.go, `WsVerifyToken`:
-- which requests become a connection. The request, the claims in a token, the token cache and the
-- upgrade of the connection are parameters.
pub mod Laws
use k.Base.{
  Result, ok, err, ◌>>=◌, ◌>>◌, require, or_err, ℕ, ◌==◌, ltb, ◌||◌, Bool, true, false,
  if◌then◌else◌, Option, none, some, List, Str, codes, str_dec, str_eq, lookup, ℤ, atoi, is_yes,
  ℤ_dec,
}
use k.Constant.{normal_token, kicked_token}

pub record Claims : Type 0 where
  pub user_id : Str
  pub platform_id : ℤ

pub data HttpError : Type 0 where
  conn_over_max_num_limit conn_args_err claim_err token_invalid cache_err : HttpError
  token_kicked token_unknown token_not_exist upgrade_err : HttpError

-- What the handler reads of its request and of the rest of the system.
pub record Request : Type 0 where
  pub query : Str → Option Str
  pub header : Str → Option Str
  pub get_claim_from_token : Str → Option Claims
  pub get_tokens_without_error : Str → ℤ → Option (List (Str × ℕ))
  pub generate_long_conn : Bool
  pub online_user_conn_num : ℕ
  pub ws_max_conn_num : ℕ

-- The arguments of the new connection.
pub record ConnArgs : Type 0 where
  pub token : Str
  pub user_id : Str
  pub platform_id : ℤ
  pub compression : Bool

unfoldable pub ws_verify_token : Request → Str → Str → ℤ → Result HttpError (Unit {0})
ws_verify_token r token user_id platform_id = do
  claim ← or_err (r.get_claim_from_token token) claim_err
  require (str_eq claim.user_id user_id) token_invalid
  require (is_yes (ℤ_dec claim.platform_id platform_id)) token_invalid

-- The switch on the flag that the cache has for the token.
unfoldable pub check_flag : Option ℕ → Result HttpError (Unit {0})
check_flag none = err token_not_exist
check_flag (some v) =
    if v == normal_token
    then ok tt
    else if v == kicked_token
    then err token_kicked
    else err token_unknown

abbrev pub is_gzip : Option Str → Bool
is_gzip none = false
is_gzip (some s) = str_eq s (codes "gzip")

abbrev pub token_key : Str
token_key = codes "token"

abbrev pub user_id_key : Str
user_id_key = codes "sendID"

abbrev pub platform_id_key : Str
platform_id_key = codes "platformID"

abbrev pub compression_key : Str
compression_key = codes "compression"

unfoldable pub ws_handler : Request → Result HttpError ConnArgs
unfolding ws_verify_token check_flag
ws_handler r = do
  require (ltb r.online_user_conn_num r.ws_max_conn_num) conn_over_max_num_limit
  token ← or_err (r.query token_key) conn_args_err
  user_id ← or_err (r.query user_id_key) conn_args_err
  platform_id_str ← or_err (r.query platform_id_key) conn_args_err
  platform_id ← or_err (atoi platform_id_str) conn_args_err
  ws_verify_token r token user_id platform_id
  m ← or_err (r.get_tokens_without_error user_id platform_id) cache_err
  check_flag (lookup str_dec token m)
  require r.generate_long_conn upgrade_err
  ok (record {
    token = token;
    user_id = user_id;
    platform_id = platform_id;
    compression = is_gzip (r.query compression_key) || is_gzip (r.header compression_key);
  })
