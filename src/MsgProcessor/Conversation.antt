-- ===== src/MsgProcessor/Conversation.antt =====
-- pkg/msgprocessor/conversation.go: the names of conversations.
pub mod Names
pub mod Notification
use k.Base.{
  ◌&&◌, ℕ, ◌==◌, ltb, Bool, true, false, not, ◌||◌, if◌then◌else◌, Option, none, some, List, [],
  ◌∷◌, ◌++◌, Str, codes, length, sort_strings, join, split,
}
use k.Constant.{single_chat_type, group_chat_type, super_group_chat_type, notification_chat_type}
use k.MsgProcessor.Options.{Options, is_not_notification}

-- What these functions read of a message.
pub record Msg : Type 0 where
  pub session_type : ℕ
  pub send_id : Str
  pub recv_id : Str
  pub group_id : Str
  pub options : Options

-- The switch on the session type.
abbrev pub by_session {ℓ} : {A : Type ℓ} → ℕ → A → A → A → A → A → A
by_session t single group super notification other =
    if t == single_chat_type
    then single
    else if t == group_chat_type
    then group
    else if t == super_group_chat_type
    then super
    else if t == notification_chat_type
    then notification
    else other

abbrev pub underscore : Str
underscore = codes "_"

-- `sort.Strings(l)` and `strings.Join(l, "_")` on the sender and the receiver.
abbrev pub pair_id : Msg → Str
pair_id m = join underscore (sort_strings (m.send_id ∷ m.recv_id ∷ []))

-- msg.SendID + "_" + msg.RecvID
abbrev pub ordered_id : Msg → Str
ordered_id m = m.send_id ++ underscore ++ m.recv_id

unfoldable pub get_notification_conversation_id_by_msg : Msg → Str
get_notification_conversation_id_by_msg m =
    by_session m.session_type (codes "n_" ++ pair_id m) (codes "n_" ++ m.group_id)
      (codes "n_" ++ m.group_id) (codes "n_" ++ ordered_id m) []

unfoldable pub get_chat_conversation_id_by_msg : Msg → Str
get_chat_conversation_id_by_msg m =
    by_session m.session_type (codes "si_" ++ pair_id m) (codes "g_" ++ m.group_id)
      (codes "sg_" ++ m.group_id) (codes "sn_" ++ ordered_id m) []

unfoldable pub gen_conversation_unique_key : Msg → Str
gen_conversation_unique_key m = by_session m.session_type (pair_id m) [] m.group_id (pair_id m) []

unfoldable pub get_conversation_id_by_msg : Msg → Str
get_conversation_id_by_msg m =
    let chat = is_not_notification m.options in
    by_session m.session_type (if chat then codes "si_" ++ pair_id m else codes "n_" ++ pair_id m)
      (if chat then codes "g_" ++ m.group_id else codes "n_" ++ m.group_id)
      (if chat then codes "sg_" ++ m.group_id else codes "n_" ++ m.group_id)
      (if chat then codes "sn_" ++ ordered_id m else codes "n_" ++ ordered_id m) []

abbrev pub first_of_ids : List Str → Str
first_of_ids [] = []
first_of_ids (a ∷ ids) = a

-- `len(ids) > 2 || len(ids) < 1`
abbrev pub bad_ids : List Str → Bool
bad_ids ids = ltb 2 (length ids) || ltb (length ids) 1

unfoldable pub get_conversation_id_by_session_type : ℕ → List Str → Str
get_conversation_id_by_session_type t ids =
    let sorted = sort_strings ids in
    if bad_ids sorted
    then []
    else by_session t (codes "si_" ++ join underscore sorted) (codes "g_" ++ first_of_ids sorted)
        (codes "sg_" ++ first_of_ids sorted) (codes "sn_" ++ first_of_ids sorted) []

unfoldable pub get_notification_conversation_id : ℕ → List Str → Str
get_notification_conversation_id t ids =
    let sorted = sort_strings ids in
    if bad_ids sorted
    then []
    else by_session t (codes "n_" ++ join underscore sorted) [] (codes "n_" ++ first_of_ids sorted)
        [] []

-- `l[0] = "n"` where there is more than one part.
rename_first : List Str → Str
rename_first [] = []
rename_first (a ∷ []) = []
rename_first (a ∷ b ∷ l) = join underscore (codes "n" ∷ b ∷ l)

unfoldable pub get_notification_conversation_id_by_conversation_id : Str → Str
unfolding rename_first
get_notification_conversation_id_by_conversation_id id = rename_first (split b'_' id)

-- `strings.HasPrefix(conversationID, "n_")`
unfoldable pub is_notification : Str → Bool
is_notification [] = false
is_notification (a ∷ []) = false
is_notification (a ∷ b ∷ s) = (a == b'n') && (b == b'_')

unfoldable pub is_notification_by_msg : Msg → Bool
is_notification_by_msg m = not (is_not_notification m.options)

unfoldable pub parse_conversation_id : Msg → Bool × Str
parse_conversation_id m =
    let chat = is_not_notification m.options in
    by_session m.session_type
      (if chat then (false, codes "si_" ++ pair_id m) else (true, codes "n_" ++ pair_id m))
      (false, [])
      (if chat then (false, codes "sg_" ++ m.group_id) else (true, codes "n_" ++ m.group_id))
      (if chat then (false, codes "sn_" ++ ordered_id m) else (true, codes "n_" ++ ordered_id m))
      (false, [])
