-- ===== src/MsgTransfer/Sorting.antt =====
-- internal/msgtransfer/online_history_msg_handler.go, `getPushStorageMsgList`: the messages of a
-- channel are sorted by their options. A message is a pointer: what is done to its options shows in
-- the list that it goes to.
pub mod Clones
use k.Base.{ℕ, ◌==◌, Bool, true, false, not, ◌||◌, if◌then◌else◌, List, [], ◌∷◌, Str}
use k.Constant.{
  key_is_history, key_is_offline_push, key_is_unread_count, key_is_send_msg,
  reaction_message_modifier, reaction_message_deleter,
}
use k.MsgStore.Convert.{MsgData}
use k.MsgProcessor.Options.{
  Options, with_options, with_offline_push, with_unread_count, new_msg_options, is,
  is_not_notification,
}

unfoldable pub is_history : Options → Bool
is_history o = is o key_is_history

unfoldable pub is_offline_push : Options → Bool
is_offline_push o = is o key_is_offline_push

unfoldable pub is_unread_count : Options → Bool
is_unread_count o = is o key_is_unread_count

unfoldable pub is_send_msg : Options → Bool
is_send_msg o = is o key_is_send_msg

-- The five lists.
pub record Sorted : Type 0 where
  pub storage : List MsgData
  pub not_storage : List MsgData
  pub storage_notification : List MsgData
  pub not_storage_notification : List MsgData
  pub modify : List MsgData

-- The notification's own options after the test of the offline push.
unfoldable pub quiet_options : Options → Options
quiet_options o = if is_offline_push o then with_options o (with_offline_push false ∷ []) else o

-- What is left of the notification's own options; each test reads the map as it is by then.
unfoldable pub muted_options : Options → Options
unfolding quiet_options
muted_options o =
    let quiet = quiet_options o in
    if is_unread_count quiet then with_options quiet (with_unread_count false ∷ []) else quiet

-- The options of a notification's clone. The notification has a map of options, since without one
-- it would not count as a notification, and so the clone gets a new map.
unfoldable pub clone_options : Options → Options
unfolding quiet_options
clone_options o =
    let pushed =
      if is_offline_push o
      then with_options new_msg_options (with_offline_push true ∷ [])
      else new_msg_options in
    if is_unread_count (quiet_options o)
    then with_options pushed (with_unread_count true ∷ [])
    else pushed

unfoldable pub clone_of : MsgData → MsgData
clone_of m = record m { options = clone_options m.options }

-- The message as it is sorted.
unfoldable pub sorted_form : MsgData → MsgData
sorted_form m =
    if is_not_notification m.options
    then m
    else if is_send_msg m.options
    then record m { options = muted_options m.options }
    else m

-- The clone goes into the messages to store.
unfoldable pub add_clone : MsgData → Sorted → Sorted
unfolding clone_of
add_clone m s =
    if is_not_notification m.options
    then s
    else if is_send_msg m.options
    then record s { storage = clone_of m ∷ s.storage }
    else s

-- `v` is the message as it came, and m its sorted form.
unfoldable pub add_sorted : MsgData → MsgData → Sorted → Sorted
add_sorted v m s =
    if is_not_notification v.options
    then if is_history m.options
      then record s { storage = m ∷ s.storage }
      else record s { not_storage = m ∷ s.not_storage }
    else if is_history m.options
    then record s { storage_notification = m ∷ s.storage_notification }
    else record s { not_storage_notification = m ∷ s.not_storage_notification }

unfoldable pub add_modify : MsgData → Sorted → Sorted
add_modify m s =
    if (m.content_type == reaction_message_modifier) || (m.content_type == reaction_message_deleter)
    then record s { modify = m ∷ s.modify }
    else s

unfoldable pub get_push_storage_msg_list : List MsgData → Sorted
unfolding add_clone sorted_form add_sorted add_modify
get_push_storage_msg_list [] = record {
  storage = [];
  not_storage = [];
  storage_notification = [];
  not_storage_notification = [];
  modify = [];
}
get_push_storage_msg_list (v ∷ vs) =
    let m = sorted_form v in
    add_clone v (add_sorted v m (add_modify m (get_push_storage_msg_list vs)))
