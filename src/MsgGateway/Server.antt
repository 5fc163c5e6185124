-- ===== src/MsgGateway/Server.antt =====
-- internal/msggateway/n_ws_server.go: the loop of `Run` over its three channels, and the calls of
-- hub_server.go that reach the same map. The token cache is a parameter. What the code sends or
-- reports is appended to `outbox` in the order of the code; where two goroutines do it, in the
-- order of the text.
pub mod Invariant
pub mod Terminals
use k.Base.{
  ℕ, ◌==◌, Bool, true, false, if◌then◌else◌, Option, none, some, List, [], ◌∷◌, ◌++◌, map, Str,
  str_eq, ℤ, pos, negsuc, ◌+ℤ◌,
}
use k.Constant.{
  normal_token, kicked_token, all_login_but_same_term_kick, pc_and_other, terminal_pc,
  platform_id_to_class,
}
use k.MsgGateway.UserMap.{Client, UserMap, Found, new_user_map, get, set, delete, delete_clients}

abbrev pub TokenMap : Type 0
TokenMap = List (Str × ℕ)

-- The results of `GetTokensWithoutError`.
pub data TokenReply : Type 0 where
  refused : TokenReply
  no_map : TokenReply
  tokens : TokenMap → TokenReply

-- The token cache, and whether a write succeeded.
pub record TokenCache : Type 1 where
  pub Cache : Type 0
  pub get_tokens_without_error : Cache → Str → ℕ → TokenReply
  pub set_token_map_by_uid_pid : Cache → Str → ℕ → TokenMap → Cache × Bool

pub data Notice : Type 0 where
  kick_online_message : Client → Notice
  online_info_to_other_node : Client → Notice
  user_online : Client → Notice
  user_offline : Client → Notice

-- The commands that reach the server: the three channels of `Run`, and `KickUserConn`.
pub data Command : Type 0 where
  register : Client → Command
  unregister : Client → Command
  kick_handler : Bool → List Client → Client → Command
  kick_user_conn : Client → Command

-- `for k := range m { if k != token { m[k] = KickedToken } }`
unfoldable pub kick_other_tokens : Str → TokenMap → TokenMap
kick_other_tokens own [] = []
kick_other_tokens own ((token, flag) ∷ m) =
    (token, if str_eq token own then flag else kicked_token) ∷ kick_other_tokens own m

abbrev pub minus_one : ℤ
minus_one = negsuc 0

module _ (tc : TokenCache) (multi_login_policy : ℕ) where
  open tc use {Cache, get_tokens_without_error, set_token_map_by_uid_pid}

  pub record WsServer : Type 0 where
    pub clients : UserMap
    pub online_user_num : ℤ
    pub online_user_conn_num : ℤ
    pub cache : Cache
    pub outbox : List Notice

  unfoldable pub new_ws_server : Cache → WsServer
  unfolding new_user_map
  new_ws_server c = record {
    clients = new_user_map;
    online_user_num = pos 0;
    online_user_conn_num = pos 0;
    cache = c;
    outbox = [];
  }

  write_tokens : WsServer → Client → TokenReply → WsServer
  write_tokens ws c refused = ws
  write_tokens ws c no_map = ws
  write_tokens ws c (tokens m) = record ws {
    cache =
        (set_token_map_by_uid_pid ws.cache c.user_id c.platform_id (kick_other_tokens c.token m)).0;
  }

  drop_clients : WsServer → Str → List Client → UserMap × Bool → WsServer
  drop_clients ws user old (u, deleted) = record ws {
    clients = u;
    online_user_num = if deleted then ws.online_user_num +ℤ minus_one else ws.online_user_num;
    outbox = ws.outbox ++ map kick_online_message old;
  }

  kick_old : WsServer → List Client → Client → WsServer
  unfolding drop_clients write_tokens
  kick_old ws old c =
      let ws' = drop_clients ws c.user_id old (delete_clients ws.clients c.user_id old) in
      write_tokens ws' c (get_tokens_without_error ws'.cache c.user_id c.platform_id)

  -- The body of the case `AllLoginButSameTermKick`.
  same_term_kick : WsServer → Bool → List Client → Client → WsServer
  unfolding kick_old
  same_term_kick ws client_ok old c = if client_ok then kick_old ws old c else ws

  abbrev pub is_pc : Client → Bool
  is_pc c = str_eq (platform_id_to_class c.platform_id) terminal_pc

  unfoldable pub multi_terminal_login_checker : WsServer → Bool → List Client → Client → WsServer
  unfolding same_term_kick
  multi_terminal_login_checker ws client_ok old c =
      if multi_login_policy == pc_and_other
      then if is_pc c then ws else same_term_kick ws client_ok old c
      else if multi_login_policy == all_login_but_same_term_kick
      then same_term_kick ws client_ok old c
      else ws

  add_client : WsServer → Client → WsServer
  add_client ws c = record ws {
    clients = set ws.clients c.user_id c;
    online_user_conn_num = ws.online_user_conn_num +ℤ pos 1;
  }

  register_found : WsServer → Client → Found → WsServer
  unfolding multi_terminal_login_checker add_client
  register_found ws c f =
      if f.user_existed
      then add_client (multi_terminal_login_checker ws f.client_existed f.clients c) c
      else record (add_client ws c) { online_user_num = ws.online_user_num +ℤ pos 1 }

  abbrev pub notify : WsServer → List Notice → WsServer
  notify ws ns = record ws { outbox = ws.outbox ++ ns }

  unfoldable pub register_client : WsServer → Client → WsServer
  unfolding register_found
  register_client ws c =
      notify (register_found ws c (get ws.clients c.user_id c.platform_id))
        (online_info_to_other_node c ∷ user_online c ∷ [])

  unregister_with : WsServer → Client → UserMap × Bool → WsServer
  unregister_with ws c (u, deleted) = record ws {
    clients = u;
    online_user_num = if deleted then ws.online_user_num +ℤ minus_one else ws.online_user_num;
    online_user_conn_num = ws.online_user_conn_num +ℤ minus_one;
    outbox = ws.outbox ++ user_offline c ∷ [];
  }

  unfoldable pub unregister_client : WsServer → Client → WsServer
  unfolding unregister_with
  unregister_client ws c = unregister_with ws c (delete ws.clients c.user_id c.remote_addr)

  unfoldable pub kick_user_conn_by : WsServer → Client → WsServer
  kick_user_conn_by ws c = record ws {
    clients = (delete_clients ws.clients c.user_id (c ∷ [])).0;
    outbox = ws.outbox ++ kick_online_message c ∷ [];
  }

  unfoldable pub step : WsServer → Command → WsServer
  unfolding register_client unregister_client multi_terminal_login_checker kick_user_conn_by
  step ws (register c) = register_client ws c
  step ws (unregister c) = unregister_client ws c
  step ws (kick_handler ok old c) = multi_terminal_login_checker ws ok old c
  step ws (kick_user_conn c) = kick_user_conn_by ws c

  unfoldable pub run : WsServer → List Command → WsServer
  run ws [] = ws
  run ws (c ∷ cs) = run (step ws c) cs
