-- ===== src/Tests/Admission.antt =====
-- A request with a token that the cache holds, and one whose token was kicked.
use k.Base.{
  ok, ◌≡◌, refl, true, false, if◌then◌else◌, Option, none, some, [], ◌∷◌, ℕ, Str, codes, str_eq,
  str_dec, lookup, pos, atoi, ℤ_dec,
}
use k.Constant.{normal_token}
use k.MsgGateway.Admission.{
  Request, ConnArgs, Claims, ws_handler, token_key, user_id_key, platform_id_key,
}
use k.MsgGateway.Admission.Laws.{Admitted, ws_handler-Admitted}

abbrev arguments : Str → Option Str
arguments key =
    if str_eq key token_key
    then some (codes "t")
    else if str_eq key user_id_key
    then some (codes "u")
    else if str_eq key platform_id_key
    then some (codes "2")
    else none

abbrev claims : Claims
claims = record { user_id = codes "u"; platform_id = pos 2 }

abbrev request : ℕ → Request
request flag = record {
  query = arguments;
  header = λ key. none;
  get_claim_from_token = λ token. some claims;
  get_tokens_without_error = λ user platform. some ((codes "t", flag) ∷ []);
  generate_long_conn = true;
  online_user_conn_num = 3;
  ws_max_conn_num = 10;
}

abbrev connection : ConnArgs
connection = record {
  token = codes "t";
  user_id = codes "u";
  platform_id = pos 2;
  compression = false;
}

accepted : ws_handler (request normal_token) ≡ ok connection
unfolding ws_handler atoi lookup str_dec ℤ_dec
accepted = refl

ws_handler-Admitted_example : Admitted (request normal_token) connection
ws_handler-Admitted_example = ws_handler-Admitted (request normal_token) connection accepted
