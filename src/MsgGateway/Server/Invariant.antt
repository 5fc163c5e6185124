-- ===== src/MsgGateway/Server/Invariant.antt =====
-- The counter of online users against the map of connections.
use k.Base.{
  Bool-cases, inl, inr, All, if◌then◌else◌, some, ℕ, suc, ◌≡◌, refl, ◌≢◌, Bool, true, false, List,
  [], ◌∷◌, length, arith, ℤ, pos, ◌+ℤ◌, pos-+ℤ, pos-minus_one,
}
use k.Constant.{all_login_but_same_term_kick, pc_and_other}
use k.MsgGateway.UserMap.{Client, UserMap, get_all, get, delete}
use k.MsgGateway.UserMap.Laws.{
  IsDistinct, set-IsDistinct, delete-IsDistinct, length-set, Shrinks, delete-Shrinks,
  delete_clients-Shrinks,
}
use k.MsgGateway.UserMap.Platforms.{delete_clients_all}
use k.MsgGateway.Server.{
  TokenCache, Command, register, unregister, kick_handler, kick_user_conn, WsServer, new_ws_server,
  minus_one, register_found, register_client, unregister_with, unregister_client,
  multi_terminal_login_checker, add_client, kick_user_conn_by, step, run,
}

-- Where a deletion empties a user, one is taken off the counter.
pub drop-users :
    (u : UserMap) (r : UserMap × Bool) (n : ℤ)
    → Shrinks u r
    → n ≡ pos (length u)
    → (if r.1 then n +ℤ minus_one else n) ≡ pos (length r.0)
drop-users u (u', true) n s e = rw (e, s) (pos-minus_one (length u'))
drop-users u (u', false) n s e = rw (e, s)

module _ (tc : TokenCache) (policy : ℕ) where
  -- The counter is the number of users in the map, and no user has two entries there.
  pub record Counted (ws : WsServer tc policy) : Type 0 where
    pub distinct : IsDistinct ws.clients
    pub users : ws.online_user_num ≡ pos (length ws.clients)

  new_ws_server-Counted : (c : tc.Cache) → Counted (new_ws_server tc policy c)
  unfolding new_ws_server
  new_ws_server-Counted c = record { distinct = tt; users = refl }

  unregister-Counted :
      (ws : WsServer tc policy) (c : Client)
      → Counted ws
      → Counted (unregister_client tc policy ws c)
  unfolding unregister_client unregister_with
  unregister-Counted ws c v = record {
    distinct = delete-IsDistinct ws.clients c.user_id c.remote_addr v.distinct;
    users =
        drop-users ws.clients (delete ws.clients c.user_id c.remote_addr) ws.online_user_num
          (delete-Shrinks ws.clients c.user_id c.remote_addr v.distinct) v.users;
  }

  -- The policies under which a login kicks nobody.
  abbrev pub KicksNobody : Type 0
  KicksNobody = (policy ≢ all_login_but_same_term_kick) × (policy ≢ pc_and_other)

  checker_quiet :
      KicksNobody
      → (ws : WsServer tc policy) (ok : Bool) (old : List Client) (c : Client)
      → multi_terminal_login_checker tc policy ws ok old c ≡ ws
  unfolding multi_terminal_login_checker
  checker_quiet q ws ok old c = ground arith

  register-Counted :
      KicksNobody
      → (ws : WsServer tc policy) (c : Client) → Counted ws
      → Counted (register_client tc policy ws c)
  unfolding register_client register_found add_client
  register-Counted q ws c v =
      elim (Bool-cases (get ws.clients c.user_id c.platform_id).user_existed) [
        | inl known ↦ rw known (
            rw
              (checker_quiet q ws (get ws.clients c.user_id c.platform_id).client_existed
                (get ws.clients c.user_id c.platform_id).clients c)
              (record {
                distinct = set-IsDistinct ws.clients c.user_id c v.distinct;
                users = ground (arith, length-set ws.clients c.user_id c c.platform_id);
              }))
        | inr new ↦ rw new (record {
          distinct = set-IsDistinct ws.clients c.user_id c v.distinct;
          users = ground (
            arith,
            length-set ws.clients c.user_id c c.platform_id,
            pos-+ℤ (length ws.clients) 1,
          );
        })
      ]

  -- The commands of the three channels.
  abbrev pub FromChannel : Command → Type 0
  FromChannel (kick_user_conn c) = ⊥
  FromChannel _ = Unit

  step-Counted :
      KicksNobody
      → (ws : WsServer tc policy) (c : Command) → FromChannel c
      → Counted ws
      → Counted (step tc policy ws c)
  unfolding step
  step-Counted q ws (register c) h v = register-Counted q ws c v
  step-Counted q ws (unregister c) h v = unregister-Counted ws c v
  step-Counted q ws (kick_handler ok old c) h v = rw (checker_quiet q ws ok old c) v
  step-Counted q ws (kick_user_conn c) h v = absurd h

  run-Counted :
      KicksNobody
      → (ws : WsServer tc policy) (cs : List Command) → All FromChannel cs
      → Counted ws
      → Counted (run tc policy ws cs)
  unfolding run
  run-Counted q ws [] h v = v
  run-Counted q ws (c ∷ cs) h v =
      run-Counted q (step tc policy ws c) cs h.1 (step-Counted q ws c h.0 v)

  -- Under a policy that kicks nobody, after any sequence of commands from the three channels on a
  -- new server, `onlineUserNum` is the number of users that the map holds, each once.
  pub run_counts_users :
      (policy ≢ all_login_but_same_term_kick) × (policy ≢ pc_and_other)
      → (c : tc.Cache) (cs : List Command) → All FromChannel cs
      → ((run tc policy (new_ws_server tc policy c) cs).online_user_num
          ≡ pos (length (run tc policy (new_ws_server tc policy c) cs).clients))
        × IsDistinct (run tc policy (new_ws_server tc policy c) cs).clients
  run_counts_users q c cs h =
      let v = run-Counted q (new_ws_server tc policy c) cs h (new_ws_server-Counted c) in
      (v.users, v.distinct)

  -- `KickUserConn` on the only connection of a user takes the user out of the map and leaves
  -- `onlineUserNum` as it was, one more than the users that are left.
  pub kick_user_conn_miscounts :
      (ws : WsServer tc policy) (c : Client)
      → Counted ws
      → get_all ws.clients c.user_id ≡ some (c ∷ [])
      → (step tc policy ws (kick_user_conn c)).online_user_num
        ≡ pos (suc (length (step tc policy ws (kick_user_conn c)).clients))
  unfolding step kick_user_conn_by
  kick_user_conn_miscounts ws c v e = ground (
    arith,
    delete_clients-Shrinks ws.clients c.user_id (c ∷ []) v.distinct,
    delete_clients_all (λ _. true) ws.clients c.user_id (c ∷ []) e (refl, tt),
  )
