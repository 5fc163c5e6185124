-- ===== src/MsgSend.antt =====
-- internal/rpc/msg/send.go and callback.go, with `encapsulateMsgData` of verify.go and
-- `isMessageHasReadEnabled` of utils.go: how a message gets into the queue. The clock, the random
-- identifier, the helpers of the tools' library, the callbacks' server and the queue are parameters.
-- The callbacks after a message are left out: what they answer is only logged.
pub mod Laws
use k.Base.{
  ◌==◌, ◌||◌, ◌&&◌, ℕ, Bool, true, false, not, if◌then◌else◌, Option, none, some, List, [], ◌∷◌,
  ◌++◌, Str, codes, contain, any, inl, inr, ◌⊎◌, Result, err, ok, ◌>>=◌, ◌>>◌, require,
}
use k.Constant.{
  single_chat_type, super_group_chat_type, notification_chat_type, key_is_history,
  key_is_persistent, key_is_offline_push, key_is_unread_count, key_is_conversation_update,
  key_is_sender_sync, key_is_sender_conversation_update,
}
use k.MsgStore.Convert.{MsgData, OfflinePushInfo}
use k.MsgProcessor.Options.{Options}
use k.MsgProcessor.Conversation.{Msg, get_conversation_id_by_msg, is_notification_by_msg}
use k.MsgVerify.Send
use k.MsgVerify.Send.{VerifyError, Services, message_verification}
use k.MsgVerify.Receive.{OptError, Settings, Answer, modify_message_by_user_message_receive_opt}

pub data PostError : Type 0 where
  callback_continue : PostError
  callback_fails : ℕ → PostError

pub data SendError : Type 0 where
  args message_has_read_disable queue_error : SendError
  refused : VerifyError → SendError
  settings_error : OptError → SendError
  callback_error : ℕ → SendError
  -- a nil pointer is dereferenced
  panicked : SendError

-- cbapi.CallbackMsgModifyCommandResp, without the fields that are not read
pub record ModifyReply : Type 0 where
  pub content : Option Str
  pub offline_push_info : Option OfflinePushInfo
  pub recv_id : Option Str
  pub group_id : Option Str
  pub client_msg_id : Option Str
  pub server_msg_id : Option Str
  pub sender_platform_id : Option ℕ
  pub sender_nickname : Option Str
  pub sender_face_url : Option Str
  pub session_type : Option ℕ
  pub msg_from : Option ℕ
  pub content_type : Option ℕ
  pub status : Option ℕ
  pub options : Option Options
  pub at_user_id_list : Option (List Str)
  pub attached_info : Option Str
  pub ex : Option Str

-- The flags of the configuration, the server that is called back, and `NotNilReplace` of the tools'
-- library on what a field holds; on the pointer to the offline push, which may be nil, it may panic,
-- which is none.
pub record Callbacks : Type 1 where
  pub before_single_enable : Bool
  pub after_single_enable : Bool
  pub modify_enable : Bool
  pub post_before_single : MsgData → Option PostError
  pub post_before_group : MsgData → Option PostError
  pub post_modify : MsgData → PostError ⊎ ModifyReply
  pub not_nil_replace : {A : Type 0} → A → Option A → A
  pub replace_push :
      Option OfflinePushInfo → Option OfflinePushInfo → Option (Option OfflinePushInfo)

pub record SendContext : Type 1 where
  pub single_receipts : Bool
  pub group_receipts : Bool
  pub get_msg_id : Str → Str
  pub now : ℕ
  pub verify : Services
  pub settings : Settings
  pub callbacks : Callbacks
  pub single_key : Str → Str → Str
  pub group_key : Str → Str
  pub single_conversation : Str → Str → Str
  pub difference : List Str → List Str → List Str
  pub get_group_member_ids : Str → Option (List Str)
  -- whether the queue takes a message
  pub msg_to_mq_ok : Str → MsgData → Bool

pub data SendEvent : Type 0 where
  msg_to_mq : Str → MsgData → SendEvent
  -- the users, the conversation with its type and group, and how the group names them
  set_conversations : List Str → Str → ℕ → Str → ℕ → SendEvent

pub record SendMsgResp : Type 0 where
  pub server_msg_id : Str
  pub client_msg_id : Str
  pub send_time : ℕ

-- What is sent, and the answer, which can be empty without an error.
abbrev pub SendOutcome : Type 0
SendOutcome = List SendEvent × Result SendError (Option SendMsgResp)

-- What the checks read of a message, and what the naming functions read.
abbrev pub verified : MsgData → Send.MsgData
verified m = record {
  send_id = m.send_id;
  recv_id = m.recv_id;
  group_id = m.group_id;
  session_type = m.session_type;
  content_type = m.content_type;
}

abbrev pub msg_of : MsgData → Msg
msg_of m = record {
  session_type = m.session_type;
  send_id = m.send_id;
  recv_id = m.recv_id;
  group_id = m.group_id;
  options = m.options;
}

unfoldable pub is_message_has_read_enabled : SendContext → MsgData → Bool
is_message_has_read_enabled c m =
    if (m.content_type == 2200) && (m.session_type == single_chat_type)
    then c.single_receipts
    else if (m.content_type == 2200) && (m.session_type == super_group_chat_type)
    then c.group_receipts
    else true

-- utils.SetSwitchFromOptions, one key after the other.
set_switches : SendContext → List Str → Bool → Options → Options
set_switches c [] b o = o
set_switches c (key ∷ keys) b o = set_switches c keys b (c.settings.set_switch o key b)

-- Text, pictures and the other contents that users write.
abbrev is_plain_content : ℕ → Bool
is_plain_content t =
    any (λ n. t == n) (101 ∷ 102 ∷ 103 ∷ 104 ∷ 105 ∷ 106 ∷ 107 ∷ 108 ∷ 109 ∷ 110 ∷ 114 ∷ [])

unfoldable pub encapsulated_options : SendContext → ℕ → Options → Options
unfolding set_switches
encapsulated_options c t o =
    if is_plain_content t
    then set_switches c (key_is_conversation_update ∷ key_is_unread_count ∷ key_is_sender_sync ∷ [])
        true o
    else if t == 111
    then set_switches c (key_is_unread_count ∷ key_is_offline_push ∷ []) false o
    else if t == 2200
    then set_switches c
        (key_is_conversation_update ∷ key_is_sender_conversation_update ∷ key_is_unread_count
          ∷ key_is_offline_push ∷ [])
        false o
    else if t == 113
    then set_switches c
        (key_is_history ∷ key_is_persistent ∷ key_is_sender_sync ∷ key_is_conversation_update
          ∷ key_is_sender_conversation_update ∷ key_is_unread_count ∷ key_is_offline_push ∷ [])
        false o
    else o

unfoldable pub encapsulate_msg_data : SendContext → MsgData → MsgData
unfolding encapsulated_options
encapsulate_msg_data c m = record m {
  server_msg_id = c.get_msg_id m.send_id;
  send_time = if m.send_time == 0 then c.now else m.send_time;
  options = encapsulated_options c m.content_type m.options;
}

-- An error that says to go on is none.
callback_result : Option PostError → Result SendError (Unit {0})
callback_result none = ok tt
callback_result (some callback_continue) = ok tt
callback_result (some (callback_fails n)) = err (callback_error n)

unfoldable pub callback_before_send_single_msg : SendContext → MsgData → Result SendError (Unit {0})
unfolding callback_result
callback_before_send_single_msg c m =
    if not c.callbacks.before_single_enable
    then ok tt
    else callback_result (c.callbacks.post_before_single m)

-- As in the source, by the flag of the callback after single chats.
unfoldable pub callback_before_send_group_msg : SendContext → MsgData → Result SendError (Unit {0})
unfolding callback_result
callback_before_send_group_msg c m =
    if not c.callbacks.after_single_enable
    then ok tt
    else callback_result (c.callbacks.post_before_group m)

abbrev replaced_content : Str → Option Str → Str
replaced_content old none = old
replaced_content old (some new) = new

-- The message with what the reply replaces, and an offline push that is already replaced.
replaced : Callbacks → MsgData → ModifyReply → Option OfflinePushInfo → MsgData
replaced k m r push = record m {
  content = replaced_content m.content r.content;
  offline_push_info = push;
  recv_id = k.not_nil_replace m.recv_id r.recv_id;
  group_id = k.not_nil_replace m.group_id r.group_id;
  client_msg_id = k.not_nil_replace m.client_msg_id r.client_msg_id;
  server_msg_id = k.not_nil_replace m.server_msg_id r.server_msg_id;
  sender_platform_id = k.not_nil_replace m.sender_platform_id r.sender_platform_id;
  sender_nickname = k.not_nil_replace m.sender_nickname r.sender_nickname;
  sender_face_url = k.not_nil_replace m.sender_face_url r.sender_face_url;
  session_type = k.not_nil_replace m.session_type r.session_type;
  msg_from = k.not_nil_replace m.msg_from r.msg_from;
  content_type = k.not_nil_replace m.content_type r.content_type;
  status = k.not_nil_replace m.status r.status;
  options = k.not_nil_replace m.options r.options;
  at_user_id_list = k.not_nil_replace m.at_user_id_list r.at_user_id_list;
  attached_info = k.not_nil_replace m.attached_info r.attached_info;
  ex = k.not_nil_replace m.ex r.ex;
}

modified : Callbacks → MsgData → PostError ⊎ ModifyReply → Result SendError MsgData
unfolding replaced
modified k m (inl callback_continue) = ok m
modified k m (inl (callback_fails n)) = err (callback_error n)
modified k m (inr r) = elim (k.replace_push m.offline_push_info r.offline_push_info) [
  | none ↦ err panicked
  | some push ↦ ok (replaced k m r push)
]

unfoldable pub callback_msg_modify : SendContext → MsgData → Result SendError MsgData
unfolding modified
callback_msg_modify c m =
    if not c.callbacks.modify_enable || not (m.content_type == 101)
    then ok m
    else modified c.callbacks m (c.callbacks.post_modify m)

unfoldable pub verification : SendContext → MsgData → Result SendError (Unit {0})
verification c m = elim (message_verification c.verify (verified m)) [
  | none ↦ ok tt
  | some e ↦ err (refused e)
]

abbrev pub resp_of : MsgData → SendMsgResp
resp_of m = record {
  server_msg_id = m.server_msg_id;
  client_msg_id = m.client_msg_id;
  send_time = m.send_time;
}

-- MsgToMQ, and what follows it.
unfoldable pub deliver : SendContext → Str → MsgData → List SendEvent → SendOutcome
deliver c key m more =
    if c.msg_to_mq_ok key m
    then (msg_to_mq key m ∷ more, ok (some (resp_of m)))
    else ([], err queue_error)

-- A message that has got through what comes before the queue.
unfoldable pub send_prepared :
    Result SendError (Option MsgData) → (MsgData → SendOutcome) → SendOutcome
send_prepared (err e) next = ([], err e)
send_prepared (ok none) next = ([], ok none)
send_prepared (ok (some m)) next = next m

-- With everybody named, the users that are named too, and then the others.
unfoldable pub at_all : SendContext → MsgData → List Str → List Str → List SendEvent
at_all c m named members =
    let at = λ (ids : List Str) (n : ℕ).
      set_conversations ids (get_conversation_id_by_msg (msg_of m)) m.session_type m.group_id n in
    elim named [
      | [] ↦ at members 2 ∷ []
      | u ∷ us ↦ at (u ∷ us) 3 ∷ at (c.difference (u ∷ us) members) 2 ∷ []
    ]

unfoldable pub set_conversation_at_info : SendContext → MsgData → List SendEvent
unfolding at_all
set_conversation_at_info c m =
    let all_tag = codes "AtAllTag" in
    if contain m.at_user_id_list all_tag
    then elim (c.get_group_member_ids m.group_id) [
      | none ↦ []
      | some members ↦ at_all c m (c.difference (all_tag ∷ []) m.at_user_id_list) members
    ]
    else set_conversations m.at_user_id_list (get_conversation_id_by_msg (msg_of m)) m.session_type
        m.group_id 1
      ∷ []

unfoldable pub prepare_group : SendContext → MsgData → Result SendError (Option MsgData)
prepare_group c m =
    verification c m
    >> (callback_before_send_group_msg c m >> (callback_msg_modify c m >>= λ m'. ok (some m')))

unfoldable pub send_msg_super_group_chat : SendContext → MsgData → SendOutcome
send_msg_super_group_chat c m = send_prepared (prepare_group c m) (λ m'.
    deliver c (c.group_key m'.group_id) m'
      (if m'.content_type == 106 then set_conversation_at_info c m' else []))

unfoldable pub send_msg_notification : SendContext → MsgData → SendOutcome
send_msg_notification c m = deliver c (c.single_key m.send_id m.recv_id) m []

-- The callbacks of a single chat, where the receiver wants the message.
prepare_wanted : SendContext → MsgData → Answer → Result SendError (Option MsgData)
prepare_wanted c m (wanted, some e, o) = err (settings_error e)
prepare_wanted c m (false, none, o) = ok none
prepare_wanted c m (true, none, o) =
    let m' = record m { options = o } in
    callback_before_send_single_msg c m' >> (callback_msg_modify c m' >>= λ m''. ok (some m''))

unfoldable pub prepare_single : SendContext → MsgData → Result SendError (Option MsgData)
unfolding prepare_wanted
prepare_single c m =
    verification c m
    >> prepare_wanted c m (
        if is_notification_by_msg (msg_of m)
        then (true, none, m.options)
        else modify_message_by_user_message_receive_opt c.settings m.recv_id
            (c.single_conversation m.send_id m.recv_id) m.content_type m.options)

unfoldable pub send_msg_single_chat : SendContext → MsgData → SendOutcome
send_msg_single_chat c m =
    send_prepared (prepare_single c m) (λ m'. deliver c (c.single_key m'.send_id m'.recv_id) m' [])

-- The switch on the session type.
unfoldable pub send_by_session : SendContext → MsgData → SendOutcome
send_by_session c m =
    if m.session_type == single_chat_type
    then send_msg_single_chat c m
    else if m.session_type == notification_chat_type
    then send_msg_notification c m
    else if m.session_type == super_group_chat_type
    then send_msg_super_group_chat c m
    else ([], err args)

unfoldable pub send_msg : SendContext → Option MsgData → SendOutcome
send_msg c none = ([], err args)
send_msg c (some m) =
    if is_message_has_read_enabled c m
    then send_by_session c (encapsulate_msg_data c m)
    else ([], err message_has_read_disable)
