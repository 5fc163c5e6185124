-- ===== src/MsgGateway/Admission/Laws.antt =====
-- Which requests the gateway accepts.
use k.Base.{
  ok, ok_inv, require_inv, or_err_inv, then_inv, str_eq_refl, ℤ_dec_refl, ◌||◌, sym, subst, ap, ◌∙◌,
  ◌≢◌, ℕ, ◌<◌, ◌≡◌, Option, some, List, Str, str_dec, lookup, ℤ, arith, atoi, ltb→lt, lt→ltb, true,
  ltb,
}
use k.Constant.{normal_token, kicked_token}
use k.MsgGateway.Admission.{
  is_gzip, compression_key, Request, ConnArgs, ws_verify_token, check_flag, ws_handler, token_key,
  user_id_key, platform_id_key,
}

-- What an accepted request has shown.
pub record Admitted (r : Request) (c : ConnArgs) : Type 0 where
  pub room : r.online_user_conn_num < r.ws_max_conn_num
  pub token_given : r.query token_key ≡ some c.token
  pub user_given : r.query user_id_key ≡ some c.user_id
  pub platform_text : Str
  pub platform_given : r.query platform_id_key ≡ some platform_text
  pub platform_read : atoi platform_text ≡ some c.platform_id
  pub claimed :
      r.get_claim_from_token c.token
      ≡ some (record { user_id = c.user_id; platform_id = c.platform_id })
  pub flags : List (Str × ℕ)
  pub cached : r.get_tokens_without_error c.user_id c.platform_id ≡ some flags
  pub normal : lookup str_dec c.token flags ≡ some normal_token

verify_inv :
    (r : Request) (token user : Str) (platform : ℤ)
    → ws_verify_token r token user platform ≡ ok tt
    → r.get_claim_from_token token ≡ some (record { user_id = user; platform_id = platform })
unfolding ws_verify_token
verify_inv r token user platform h = ground arith

check_flag_inv : (o : Option ℕ) → check_flag o ≡ ok tt → o ≡ some normal_token
unfolding check_flag
check_flag_inv o h = ground arith

-- A request is accepted only if there is room, its arguments are there, the token is a valid one of
-- this user and platform, and the cache holds the token as a normal one.
pub ws_handler-Admitted : (r : Request) (c : ConnArgs) → ws_handler r ≡ ok c → Admitted r c
unfolding ws_handler
ws_handler-Admitted r c h =
    let (u₁, room, h₁) = require_inv (ltb r.online_user_conn_num r.ws_max_conn_num) _ _ h in
    let (token, t, h₂) = or_err_inv (r.query token_key) _ _ h₁ in
    let (user, u, h₃) = or_err_inv (r.query user_id_key) _ _ h₂ in
    let (text, p, h₄) = or_err_inv (r.query platform_id_key) _ _ h₃ in
    let (platform, q, h₅) = or_err_inv (atoi text) _ _ h₄ in
    let (v, h₆) = then_inv (ws_verify_token r token user platform) _ h₅ in
    let (m, g, h₇) = or_err_inv (r.get_tokens_without_error user platform) _ _ h₆ in
    let (f, h₈) = then_inv (check_flag (lookup str_dec token m)) _ h₇ in
    let (u₂, up, h₉) = require_inv r.generate_long_conn _ _ h₈ in
    subst (Admitted r) (ok_inv h₉) (record {
      room = ltb→lt _ _ room;
      token_given = t;
      user_given = u;
      platform_text = text;
      platform_given = p;
      platform_read = q;
      claimed = verify_inv r token user platform v;
      flags = m;
      cached = g;
      normal = check_flag_inv _ f;
    })

kicked-ne-normal : ◌≡◌ {A = Option ℕ} (some kicked_token) (some normal_token) → ⊥
kicked-ne-normal h = ground arith

some_inv {ℓ} : {A : Type ℓ} {a b : A} → some a ≡ some b → a ≡ b
some_inv h = cc

-- A token that the cache holds as kicked is never accepted.
pub ws_handler-kicked :
    (r : Request) (c : ConnArgs) (m : List (Str × ℕ))
    → r.get_tokens_without_error c.user_id c.platform_id ≡ some m
    → lookup str_dec c.token m ≡ some kicked_token
    → ws_handler r ≢ ok c
ws_handler-kicked r c m e k h =
    let v = ws_handler-Admitted r c h in
    kicked-ne-normal (sym k ∙ ap (lookup str_dec c.token) (some_inv (sym e ∙ v.cached)) ∙ v.normal)

-- Conversely, a request that has shown all this is accepted if the connection can be upgraded.
pub ws_handler_complete :
    (r : Request) (c : ConnArgs)
    → Admitted r c
    → r.generate_long_conn ≡ true
    → c.compression ≡ (is_gzip (r.query compression_key) || is_gzip (r.header compression_key))
    → ws_handler r ≡ ok c
unfolding ws_handler ws_verify_token check_flag
ws_handler_complete r c a g z =
    rw
      (lt→ltb _ _ a.room, a.token_given, a.user_given, a.platform_given, a.platform_read, a.claimed)
      (rw (str_eq_refl c.user_id, ℤ_dec_refl c.platform_id, a.cached, a.normal, g)
        (ap (λ b. ok (record c { compression = b })) (sym z)))
