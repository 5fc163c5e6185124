-- ===== src/Tests/Gateway.antt =====
-- Logins of one user on two terminals.
use mathlib.Core.Option
use k.Base.{
  ◌≡◌, refl, inl, true, if◌then◌else◌, List, [], ◌∷◌, ◌++◌, arith, ℕ, keep, codes, str_dec, str_eq,
  lookup, length, pos, ite,
}
use k.Constant.{all_login_but_same_term_kick, default_not_kick, kicked_token, normal_token}
use k.MsgGateway.UserMap.{Client, UserMap, on_platform, set, delete, differs_from}
use k.MsgGateway.UserMap.Laws.{IsDistinct, conns, conns-set, conns-delete}
use k.MsgGateway.Server.{
  TokenCache, TokenMap, tokens, Command, register, unregister, WsServer, new_ws_server,
  register_client, kick_other_tokens, run,
}
use k.MsgGateway.Server.Invariant.{run_counts_users}
use k.MsgGateway.Server.Terminals.{register_single_terminal, kick_other_tokens-lookup}

abbrev no_tokens : TokenCache
no_tokens = record {
  Cache = Unit {0};
  get_tokens_without_error = λ c u p. tokens [];
  set_token_map_by_uid_pid = λ c u p m. (c, true);
}

abbrev phone : Client
phone = record {
  user_id = codes "u";
  platform_id = 1;
  remote_addr = codes "h1";
  token = codes "t1";
}

abbrev phone_again : Client
phone_again = record {
  user_id = codes "u";
  platform_id = 1;
  remote_addr = codes "h2";
  token = codes "t2";
}

abbrev other_user : Client
other_user = record {
  user_id = codes "v";
  platform_id = 5;
  remote_addr = codes "h3";
  token = codes "t3";
}

abbrev with_phone : (policy : ℕ) → WsServer no_tokens policy
with_phone policy = record {
  clients = (codes "u", phone ∷ []) ∷ [];
  online_user_num = pos 1;
  online_user_conn_num = pos 1;
  cache = tt;
  outbox = [];
}

abbrev commands : List Command
commands = register phone ∷ register other_user ∷ register phone_again ∷ unregister phone ∷ []

run_counts_users_example :
    ((run no_tokens default_not_kick
        (new_ws_server no_tokens default_not_kick tt)
        commands).online_user_num
      ≡ pos (
          length
            (run no_tokens default_not_kick
              (new_ws_server no_tokens default_not_kick tt)
              commands).clients))
    × IsDistinct
        (run no_tokens default_not_kick
          (new_ws_server no_tokens default_not_kick tt)
          commands).clients
run_counts_users_example =
    run_counts_users no_tokens default_not_kick (omega arith) tt commands (tt, (tt, (tt, (tt, tt))))

register_single_terminal_example :
    keep (on_platform 1) (
      conns
        (register_client no_tokens all_login_but_same_term_kick
          (with_phone all_login_but_same_term_kick)
          phone_again).clients
        (codes "u"))
    ≡ phone_again ∷ []
register_single_terminal_example =
    register_single_terminal no_tokens all_login_but_same_term_kick
      (with_phone all_login_but_same_term_kick) phone_again (inl refl)

abbrev two_tokens : TokenMap
two_tokens = (codes "t1", normal_token) ∷ (codes "t2", normal_token) ∷ []

kick_other_tokens-lookup_example :
    lookup str_dec (codes "t1") (kick_other_tokens (codes "t2") two_tokens)
    ≡ Option.map
        (λ flag. if str_eq (codes "t1") (codes "t2") then flag else kicked_token)
        (lookup str_dec (codes "t1") two_tokens)
kick_other_tokens-lookup_example = kick_other_tokens-lookup (codes "t2") (codes "t1") two_tokens

abbrev phone_map : UserMap
phone_map = (codes "u", phone ∷ []) ∷ []

conns-set_example :
    conns (set phone_map (codes "u") phone_again) (codes "v")
    ≡ ite
        (str_dec (codes "u") (codes "v"))
        (conns phone_map (codes "u") ++ phone_again ∷ [])
        (conns phone_map (codes "v"))
conns-set_example = conns-set phone_map (codes "u") (codes "v") phone_again

conns-delete_example :
    conns (delete phone_map (codes "u") (codes "h1")).0 (codes "u")
    ≡ ite
        (str_dec (codes "u") (codes "u"))
        (keep (differs_from (codes "h1")) (conns phone_map (codes "u")))
        (conns phone_map (codes "u"))
conns-delete_example = conns-delete phone_map (codes "u") (codes "u") (codes "h1")
