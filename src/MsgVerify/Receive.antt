-- ===== src/MsgVerify/Receive.antt =====
-- internal/rpc/msg/verify.go: modifyMessageByUserMessageReceiveOpt, a receiver's settings.
pub mod Laws
use k.Base.{
  ℕ, ◌==◌, ◌≡◌, ◌≢◌, refl, Bool, Bool-cases, true, false, if◌then◌else◌, Option, none, some, Str,
  codes, ◌⊎◌, inl, inr, arith, List, lookup, sym, ◌∙◌, store, lookup-store,
}
use k.Constant.{key_is_offline_push}
use k.MsgProcessor.Options.{Options}

-- An error of a service, by its code, or a missing record.
pub data OptError : Type 0 where
  record_not_found : OptError
  outside : ℕ → OptError

-- The receiver's settings, global and of the conversation, and the setter of one switch of the options.
pub record Settings : Type 0 where
  pub global_opt : Str → OptError ⊎ ℕ
  pub single_opt : Str → Str → OptError ⊎ ℕ
  pub set_switch : Options → Str → Bool → Options

-- Whether the message is sent, the error, and the options of the message.
abbrev pub Answer : Type 0
Answer = Bool × Option OptError × Options

abbrev pub no_push : Settings → Options → Answer
no_push s o = (true, none, s.set_switch o key_is_offline_push false)

by_single : Settings → ℕ → Options → OptError ⊎ ℕ → Answer
by_single s content o (inl record_not_found) = (true, none, o)
by_single s content o (inl e) = (false, some e, o)
by_single s content o (inr opt) =
    if opt == 0
    then (true, none, o)
    else if opt == 1
    then (if content == 2200 then (true, none, o) else (false, none, o))
    else if opt == 2
    then no_push s o
    else (true, none, o)

by_global : Settings → Str → Str → ℕ → Options → OptError ⊎ ℕ → Answer
unfolding by_single
by_global s user conversation content o (inl e) = (false, some e, o)
by_global s user conversation content o (inr opt) =
    let single = by_single s content o (s.single_opt user conversation) in
    if opt == 0
    then single
    else if opt == 1
    then (false, none, o)
    else if opt == 2
    then no_push s o
    else single

unfoldable pub modify_message_by_user_message_receive_opt :
    Settings → Str → Str → ℕ → Options → Answer
unfolding by_global
modify_message_by_user_message_receive_opt s user conversation content o =
    by_global s user conversation content o (s.global_opt user)
