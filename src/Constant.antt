-- ===== src/Constant.antt =====
-- pkg/protocol/constant: the constants that the modelled code tests.
use k.Base.{ℕ, ◌==◌, Str, codes, if◌then◌else◌}

-- constant.go: a conversation's kind
abbrev pub single_chat_type : ℕ
single_chat_type = 1

abbrev pub group_chat_type : ℕ
group_chat_type = 2

abbrev pub super_group_chat_type : ℕ
super_group_chat_type = 3

abbrev pub notification_chat_type : ℕ
notification_chat_type = 4

-- constant.go: the states of a token
abbrev pub normal_token : ℕ
normal_token = 0

abbrev pub kicked_token : ℕ
kicked_token = 2

-- constant.go: the policies for several terminals
abbrev pub default_not_kick : ℕ
default_not_kick = 0

abbrev pub all_login_but_same_term_kick : ℕ
all_login_but_same_term_kick = 1

abbrev pub pc_and_other : ℕ
pc_and_other = 5

-- platform_id_to_name.go
abbrev pub ios_platform_id : ℕ
ios_platform_id = 1

abbrev pub terminal_pc : Str
terminal_pc = codes "PC"

-- The map `PlatformID2class`; a missing key reads as the empty string.
unfoldable pub platform_id_to_class : ℕ → Str
platform_id_to_class num =
    if num == 1
    then codes "Mobile"
    else if num == 2
    then codes "Mobile"
    else if num == 6
    then codes "Web"
    else if num == 5
    then codes "Web"
    else if num == 3
    then codes "PC"
    else if num == 4
    then codes "PC"
    else if num == 7
    then codes "PC"
    else codes ""

-- constant.go: the keys of a message's options
abbrev pub key_is_history : Str
key_is_history = codes "history"

abbrev pub key_is_persistent : Str
key_is_persistent = codes "persistent"

abbrev pub key_is_offline_push : Str
key_is_offline_push = codes "offlinePush"

abbrev pub key_is_unread_count : Str
key_is_unread_count = codes "unreadCount"

abbrev pub key_is_conversation_update : Str
key_is_conversation_update = codes "conversationUpdate"

abbrev pub key_is_sender_sync : Str
key_is_sender_sync = codes "senderSync"

abbrev pub key_is_not_private : Str
key_is_not_private = codes "notPrivate"

abbrev pub key_is_sender_conversation_update : Str
key_is_sender_conversation_update = codes "senderConversationUpdate"

abbrev pub key_is_sender_notification_push : Str
key_is_sender_notification_push = codes "senderNotificationPush"

abbrev pub key_is_reaction_from_cache : Str
key_is_reaction_from_cache = codes "reactionFromCache"

abbrev pub key_is_not_notification : Str
key_is_not_notification = codes "isNotNotification"

abbrev pub key_is_send_msg : Str
key_is_send_msg = codes "isSendMsg"

-- constant.go: the kinds of content that change another message
abbrev pub reaction_message_modifier : ℕ
reaction_message_modifier = 121

abbrev pub reaction_message_deleter : ℕ
reaction_message_deleter = 122
