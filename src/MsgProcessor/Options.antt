-- ===== src/MsgProcessor/Options.antt =====
-- pkg/msgprocessor/options.go. A Go map of options is an association list; an option function is one
-- of the twelve settings.
pub mod Laws
use k.Base.{ℕ, Bool, true, false, Option, none, some, List, [], ◌∷◌, Str, str_dec, lookup, store}
use k.Constant.{
  key_is_history, key_is_persistent, key_is_offline_push, key_is_unread_count,
  key_is_conversation_update, key_is_sender_sync, key_is_not_private,
  key_is_sender_conversation_update, key_is_sender_notification_push, key_is_reaction_from_cache,
  key_is_not_notification, key_is_send_msg,
}

abbrev pub Options : Type 0
Options = List (Str × Bool)

pub data OptionsOpt : Type 0 where
  with_not_notification with_send_msg with_history with_offline_push with_unread_count :
      Bool → OptionsOpt
  with_persistent with_conversation_update with_sender_sync with_not_private : OptionsOpt
  with_sender_conversation_update with_sender_notification_push : OptionsOpt
  with_reaction_from_cache : OptionsOpt

-- The key and the value that a setting stores.
unfoldable pub setting : OptionsOpt → Str × Bool
setting (with_not_notification b) = (key_is_not_notification, b)
setting (with_send_msg b) = (key_is_send_msg, b)
setting (with_history b) = (key_is_history, b)
setting (with_offline_push b) = (key_is_offline_push, b)
setting (with_unread_count b) = (key_is_unread_count, b)
setting with_persistent = (key_is_persistent, true)
setting with_conversation_update = (key_is_conversation_update, true)
setting with_sender_sync = (key_is_sender_sync, true)
setting with_not_private = (key_is_not_private, true)
setting with_sender_conversation_update = (key_is_sender_conversation_update, true)
setting with_sender_notification_push = (key_is_sender_notification_push, true)
setting with_reaction_from_cache = (key_is_reaction_from_cache, true)

unfoldable pub with_options : Options → List OptionsOpt → Options
with_options o [] = o
with_options o (f ∷ fs) = with_options (store str_dec (setting f).0 (setting f).1 o) fs

-- The map with every key at false that `NewOptions` begins with.
abbrev pub all_false : Options
all_false =
    (key_is_not_notification, false)
    ∷ (key_is_send_msg, false)
    ∷ (key_is_history, false)
    ∷ (key_is_persistent, false)
    ∷ (key_is_offline_push, false)
    ∷ (key_is_unread_count, false)
    ∷ (key_is_conversation_update, false)
    ∷ (key_is_sender_sync, false)
    ∷ (key_is_not_private, false)
    ∷ (key_is_sender_conversation_update, false)
    ∷ (key_is_sender_notification_push, false)
    ∷ (key_is_reaction_from_cache, false)
    ∷ []

unfoldable pub new_options : List OptionsOpt → Options
unfolding with_options
new_options opts = with_options all_false opts

-- The map that `NewMsgOptions` returns: not the one it has set a key in, but a new one.
unfoldable pub new_msg_options : Options
new_msg_options = []

unfoldable pub is : Options → Str → Bool
is o key = elim (lookup str_dec key o) [ none ↦ true | some v ↦ v ]

unfoldable pub is_not_notification : Options → Bool
unfolding is
is_not_notification o = is o key_is_not_notification
