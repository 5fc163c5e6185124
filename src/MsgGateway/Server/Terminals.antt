-- ===== src/MsgGateway/Server/Terminals.antt =====
-- Who stays connected when a user logs in again.
use mathlib.Core.Option
use k.Base.{
  lookup, str_eq, int_laws, ℕ, ◌≡◌, refl, ◌≢◌, ◌⊎◌, inl, inr, Bool, true, false, some, none, List,
  [], ◌∷◌, keep, All, Str, str_dec, length, arith, pos, ◌+ℤ◌, if◌then◌else◌,
}
use k.Constant.{all_login_but_same_term_kick, pc_and_other, kicked_token}
use k.MsgGateway.UserMap.{
  Client, UserMap, get_all, get, set, delete_clients, on_platform, is_nonempty,
}
use k.MsgGateway.UserMap.Laws.{
  get_cases, conns_absent, conns_present, delete_clients-Shrinks, delete_clients_gone,
  length-set_new, conns, conns-set, conns-delete_clients,
}
use k.MsgGateway.UserMap.Platforms.{delete_clients_all, keep-not_among-keep, keep-append}
use k.MsgGateway.Server.Invariant.{Counted, drop-users}
use k.MsgGateway.Server.{
  TokenMap, TokenCache, TokenReply, refused, no_map, tokens, WsServer, minus_one, register_found,
  register_client, multi_terminal_login_checker, add_client, same_term_kick, kick_old, drop_clients,
  write_tokens, is_pc, kick_other_tokens,
}

module _ (tc : TokenCache) (policy : ℕ) where
  write_tokens-clients :
      (ws : WsServer tc policy) (c : Client) (r : TokenReply)
      → (write_tokens tc policy ws c r).clients ≡ ws.clients
  unfolding write_tokens
  write_tokens-clients ws c refused = refl
  write_tokens-clients ws c no_map = refl
  write_tokens-clients ws c (tokens m) = refl

  kick_old-clients :
      (ws : WsServer tc policy) (old : List Client) (c : Client)
      → (kick_old tc policy ws old c).clients ≡ (delete_clients ws.clients c.user_id old).0
  unfolding kick_old drop_clients
  kick_old-clients ws old c =
      write_tokens-clients
        (drop_clients tc policy ws c.user_id old (delete_clients ws.clients c.user_id old)) c _

  write_tokens-users :
      (ws : WsServer tc policy) (c : Client) (r : TokenReply)
      → (write_tokens tc policy ws c r).online_user_num ≡ ws.online_user_num
  unfolding write_tokens
  write_tokens-users ws c refused = refl
  write_tokens-users ws c no_map = refl
  write_tokens-users ws c (tokens m) = refl

  kick_old-users :
      (ws : WsServer tc policy) (old : List Client) (c : Client)
      → (kick_old tc policy ws old c).online_user_num ≡ (
          if (delete_clients ws.clients c.user_id old).1
          then ws.online_user_num +ℤ minus_one
          else ws.online_user_num)
  unfolding kick_old drop_clients
  kick_old-users ws old c =
      write_tokens-users
        (drop_clients tc policy ws c.user_id old (delete_clients ws.clients c.user_id old)) c _

  -- A login that the policy checks against its own platform.
  abbrev pub Kicks : Client → Type 0
  Kicks c =
      (policy ≡ all_login_but_same_term_kick)
      ⊎ ((policy ≡ pc_and_other) × (is_pc tc policy c ≡ false))

  checker-Kicks :
      (ws : WsServer tc policy) (ok : Bool) (old : List Client) (c : Client)
      → Kicks c
      → multi_terminal_login_checker tc policy ws ok old c ≡ same_term_kick tc policy ws ok old c
  unfolding multi_terminal_login_checker
  checker-Kicks ws ok old c h = ground arith

  abbrev same : Client → Client → Bool
  same c = on_platform c.platform_id

  kick-conns :
      (ws : WsServer tc policy) (old : List Client) (c : Client) (found : List Client)
      → keep (same c) old ≡ found
      → get_all ws.clients c.user_id ≡ some old
      → keep
          (same c)
          (conns (same_term_kick tc policy ws (is_nonempty found) found c).clients c.user_id)
        ≡ []
  unfolding same_term_kick
  kick-conns ws old c [] f e = rw (conns_present ws.clients c.user_id old e) f
  kick-conns ws old c (x ∷ xs) f e = rw (kick_old-clients ws (x ∷ xs) c) (
      ground (
        arith,
        conns-delete_clients ws.clients c.user_id c.user_id (x ∷ xs),
        conns_present ws.clients c.user_id old e,
        keep-not_among-keep (same c) old,
      ))

  set_single :
      (u : UserMap) (c : Client)
      → keep (same c) (conns u c.user_id) ≡ []
      → keep (same c) (conns (set u c.user_id c) c.user_id) ≡ c ∷ []
  set_single u c e =
      ground (
        arith,
        conns-set u c.user_id c.user_id c,
        keep-append (same c) (conns u c.user_id) (c ∷ []),
      )

  -- Under `AllLoginButSameTermKick`, and under `PCAndOther` for a client that is not on a PC, a
  -- registered client is the only connection of its user on its platform.
  pub register_single_terminal :
      (ws : WsServer tc policy) (c : Client)
      → (policy ≡ all_login_but_same_term_kick)
        ⊎ ((policy ≡ pc_and_other) × (is_pc tc policy c ≡ false))
      → keep (on_platform c.platform_id) (conns (register_client tc policy ws c).clients c.user_id)
        ≡ c ∷ []
  unfolding register_client register_found add_client
  register_single_terminal ws c h = elim (get_cases ws.clients c.user_id c.platform_id) [
    | inl (e, f) ↦ rw f (set_single ws.clients c (rw (conns_absent ws.clients c.user_id e)))
    | inr (old, e, f) ↦ rw f (
        set_single _ c
          (rw (checker-Kicks ws _ _ c h) (kick-conns ws old c (keep (same c) old) refl e)))
  ]

  checker-conns_other :
      (ws : WsServer tc policy) (ok : Bool) (old : List Client) (c : Client) (j : Str)
      → j ≢ c.user_id
      → conns (multi_terminal_login_checker tc policy ws ok old c).clients j ≡ conns ws.clients j
  unfolding multi_terminal_login_checker same_term_kick
  checker-conns_other ws ok old c j h =
      ground (arith, kick_old-clients ws old c, conns-delete_clients ws.clients c.user_id j old)

  -- A registration leaves the connections of every other user alone.
  register-conns_other :
      (ws : WsServer tc policy) (c : Client) (j : Str)
      → j ≢ c.user_id
      → conns (register_client tc policy ws c).clients j ≡ conns ws.clients j
  unfolding register_client register_found add_client
  register-conns_other ws c j h =
      let f = get ws.clients c.user_id c.platform_id in
      ground (
        arith,
        conns-set ws.clients c.user_id j c,
        conns-set (multi_terminal_login_checker tc policy ws f.client_existed f.clients c).clients
            c.user_id j c,
        checker-conns_other ws f.client_existed f.clients c j h,
      )

  relogin_kick :
      (ws : WsServer tc policy) (c : Client) (x : Client) (xs : List Client)
      → Counted tc policy ws
      → get_all ws.clients c.user_id ≡ some (x ∷ xs)
      → All (λ d. same c d ≡ true) (x ∷ xs)
      → let t = kick_old tc policy ws (keep (same c) (x ∷ xs)) c in
        (t.online_user_num ≡ pos (length t.clients)) × (get_all t.clients c.user_id ≡ none)
  relogin_kick ws c x xs v e a =
      let old = keep (same c) (x ∷ xs) in
      (
        rw (kick_old-users ws old c, kick_old-clients ws old c)
            (drop-users ws.clients (delete_clients ws.clients c.user_id old) ws.online_user_num
              (delete_clients-Shrinks ws.clients c.user_id old v.distinct) v.users),
        rw (kick_old-clients ws old c) (
            delete_clients_gone ws.clients c.user_id old
              (delete_clients_all (same c) ws.clients c.user_id (x ∷ xs) e a)),
      )

  keep-nonempty :
      (P : Client → Bool) (x : Client) (xs : List Client)
      → P x ≡ true
      → is_nonempty (keep P (x ∷ xs)) ≡ true
  keep-nonempty P x xs h = rw h

  relogin_step :
      (ws : WsServer tc policy) (c : Client) (x : Client) (xs : List Client)
      → Counted tc policy ws
      → get_all ws.clients c.user_id ≡ some (x ∷ xs)
      → All (λ d. same c d ≡ true) (x ∷ xs)
      → let old = keep (same c) (x ∷ xs) in
        let t = same_term_kick tc policy ws (is_nonempty old) old c in
        pos (length (set t.clients c.user_id c)) ≡ t.online_user_num +ℤ pos 1
  unfolding same_term_kick
  relogin_step ws c x xs v e a =
      let (n, gone) = relogin_kick ws c x xs v e a in
      rw (keep-nonempty (same c) x xs a.0)
        (rw (length-set_new _ c.user_id c gone, n) (omega int_laws))

  -- Where every connection of a user is on the platform of the new login, the checker takes the user
  -- off `onlineUserNum` and `registerClient` does not put the user back: the counter is then one
  -- less than the users in the map.
  pub relogin_miscounts :
      (ws : WsServer tc policy) (c : Client) (x : Client) (xs : List Client)
      → (policy ≡ all_login_but_same_term_kick)
        ⊎ ((policy ≡ pc_and_other) × (is_pc tc policy c ≡ false))
      → Counted tc policy ws
      → get_all ws.clients c.user_id ≡ some (x ∷ xs)
      → All (λ d. on_platform c.platform_id d ≡ true) (x ∷ xs)
      → pos (length (register_client tc policy ws c).clients)
        ≡ (register_client tc policy ws c).online_user_num +ℤ pos 1
  unfolding register_client register_found add_client same_term_kick
  relogin_miscounts ws c x xs h v e a = elim (get_cases ws.clients c.user_id c.platform_id) [
    | inl (n, f) ↦ cc
    | inr (old, o, f) ↦
        let q : old ≡ x ∷ xs = cc in
        rw f (rw (checker-Kicks ws _ _ c h) (rw q (relogin_step ws c x xs v e a)))
  ]

-- A token other than the own one is marked as kicked, and the own one keeps its flag.
pub kick_other_tokens-lookup :
    (own token : Str) (m : TokenMap)
    → lookup str_dec token (kick_other_tokens own m)
      ≡ Option.map
          (λ flag. if str_eq token own then flag else kicked_token)
          (lookup str_dec token m)
unfolding kick_other_tokens lookup Option.map
kick_other_tokens-lookup own token [] = refl
kick_other_tokens-lookup own token ((t, flag) ∷ m) =
    ground (arith, kick_other_tokens-lookup own token m)
