-- ===== src/MsgSend/Laws.antt =====
-- What gets into the queue, and how it is answered.
use k.Base.{
  ◌≡◌, ◌≢◌, refl, ap, inl, inr, ◌==◌, ==→eq, Bool, Bool-cases, Option-cases, true, false,
  if◌then◌else◌, Option, none, some, List, [], ◌∷◌, Str, contain, codes, Result, err, ok, ◌>>◌,
}
use k.Constant.{single_chat_type, super_group_chat_type, notification_chat_type}
use k.MsgStore.Convert.{MsgData}
use k.MsgVerify.Send.{message_verification}
use k.MsgSend.{
  args, message_has_read_disable, SendContext, SendEvent, msg_to_mq, set_conversations, SendError,
  SendMsgResp, SendOutcome, verified, is_message_has_read_enabled, encapsulate_msg_data,
  verification, resp_of, deliver, send_prepared, at_all, set_conversation_at_info, prepare_group,
  send_msg_super_group_chat, send_msg_notification, prepare_single, send_msg_single_chat,
  send_by_session, send_msg,
}

-- The messages among the events.
abbrev pub queued : List SendEvent → List MsgData
queued [] = []
queued (msg_to_mq key m ∷ es) = m ∷ queued es
queued (set_conversations ids conv t group n ∷ es) = queued es

-- How an answer stands to what was sent.
abbrev pub AccountsFor : List SendEvent → Result SendError (Option SendMsgResp) → Type 0
AccountsFor events (err e) = events ≡ []
AccountsFor events (ok none) = events ≡ []
AccountsFor events (ok (some resp)) = (m : MsgData) × (queued events ≡ m ∷ []) × (resp ≡ resp_of m)

unfoldable pub Accounted : SendOutcome → Type 0
Accounted out = AccountsFor out.0 out.1

deliver-Accounted :
    (c : SendContext) (key : Str) (m : MsgData) (more : List SendEvent)
    → queued more ≡ []
    → Accounted (deliver c key m more)
unfolding Accounted deliver
deliver-Accounted c key m more h = elim (Bool-cases (c.msg_to_mq_ok key m)) [
  | inl e ↦ rw (e, deliver) (m, ap (λ ms. m ∷ ms) h, refl)
  | inr e ↦ rw (e, deliver) refl
]

send_prepared-Accounted :
    (r : Result SendError (Option MsgData)) (next : MsgData → SendOutcome)
    → ((m : MsgData) → Accounted (next m))
    → Accounted (send_prepared r next)
unfolding Accounted send_prepared
send_prepared-Accounted (err e) next h = refl
send_prepared-Accounted (ok none) next h = refl
send_prepared-Accounted (ok (some m)) next h = h m

at_all-queued :
    (c : SendContext) (m : MsgData) (named members : List Str)
    → queued (at_all c m named members) ≡ []
unfolding at_all
at_all-queued c m [] members = refl
at_all-queued c m (u ∷ us) members = refl

set_conversation_at_info-queued :
    (c : SendContext) (m : MsgData) → queued (set_conversation_at_info c m) ≡ []
unfolding set_conversation_at_info
set_conversation_at_info-queued c m =
    let all_tag = codes "AtAllTag" in
    elim (Bool-cases (contain m.at_user_id_list all_tag)) [
      | inl e ↦ elim (Option-cases (c.get_group_member_ids m.group_id)) [
        | inl g ↦ rw (e, g, set_conversation_at_info) refl
        | inr (members, g) ↦ rw (e, g, set_conversation_at_info) (at_all-queued c m _ members)
      ]
      | inr e ↦ rw (e, set_conversation_at_info) refl
    ]

at_text-queued :
    (c : SendContext) (b : Bool) (m : MsgData)
    → queued (if b then set_conversation_at_info c m else []) ≡ []
at_text-queued c true m = set_conversation_at_info-queued c m
at_text-queued c false m = refl

if-Accounted :
    (b : Bool) (x y : SendOutcome) → Accounted x → Accounted y → Accounted (if b then x else y)
if-Accounted true x y h k = h
if-Accounted false x y h k = k

error-Accounted : (e : SendError) → Accounted ([], err e)
unfolding Accounted
error-Accounted e = refl

single_chat-Accounted : (c : SendContext) (m : MsgData) → Accounted (send_msg_single_chat c m)
unfolding send_msg_single_chat
single_chat-Accounted c m =
    send_prepared-Accounted (prepare_single c m) _
      (λ m'. deliver-Accounted c (c.single_key m'.send_id m'.recv_id) m' [] refl)

notification-Accounted : (c : SendContext) (m : MsgData) → Accounted (send_msg_notification c m)
unfolding send_msg_notification
notification-Accounted c m = deliver-Accounted c (c.single_key m.send_id m.recv_id) m [] refl

group_chat-Accounted : (c : SendContext) (m : MsgData) → Accounted (send_msg_super_group_chat c m)
unfolding send_msg_super_group_chat
group_chat-Accounted c m = send_prepared-Accounted (prepare_group c m) _ (λ m'.
    deliver-Accounted c (c.group_key m'.group_id) m'
      (if m'.content_type == 106 then set_conversation_at_info c m' else [])
      (at_text-queued c (m'.content_type == 106) m'))

by_session-Accounted : (c : SendContext) (m : MsgData) → Accounted (send_by_session c m)
unfolding send_by_session
by_session-Accounted c m =
    if-Accounted (m.session_type == single_chat_type) _ _ (single_chat-Accounted c m) (
      if-Accounted (m.session_type == notification_chat_type) _ _ (notification-Accounted c m) (
        if-Accounted (m.session_type == super_group_chat_type) _ _ (group_chat-Accounted c m)
          (error-Accounted args)))

-- SendMsg sends nothing where it gives an error or an empty answer, and where it gives identifiers
-- it has put just one message in the queue, which has them.
pub send_msg-Accounted : (c : SendContext) (m : Option MsgData) → Accounted (send_msg c m)
unfolding send_msg
send_msg-Accounted c none = error-Accounted args
send_msg-Accounted c (some m) =
    if-Accounted (is_message_has_read_enabled c m) _ _
      (by_session-Accounted c (encapsulate_msg_data c m)) (error-Accounted message_has_read_disable)

-- What is sent, if anything is, was let through.
prepared-checked :
    (c : SendContext) (m : MsgData) (rest : Result SendError (Option MsgData))
    (next : MsgData → SendOutcome)
    → (send_prepared (verification c m >> rest) next).0 ≢ []
    → message_verification c.verify (verified m) ≡ none
unfolding verification send_prepared
prepared-checked c m rest next h =
    elim (Option-cases (message_verification c.verify (verified m))) [
      | inl e ↦ e
      | inr (x, e) ↦ let h' = rw (e, verification) at h in absurd (h' refl)
    ]

by_session-checked :
    (c : SendContext) (m : MsgData)
    → m.session_type ≢ notification_chat_type
    → (send_by_session c m).0 ≢ []
    → message_verification c.verify (verified m) ≡ none
unfolding send_by_session send_msg_single_chat send_msg_super_group_chat prepare_single
    prepare_group
by_session-checked c m n h = elim (Bool-cases (m.session_type == single_chat_type)) [
  | inl e ↦ let h' = rw (e, send_by_session) at h in prepared-checked c m _ _ h'
  | inr e ↦ elim (Bool-cases (m.session_type == notification_chat_type)) [
    | inl f ↦ absurd (n (==→eq _ _ f))
    | inr f ↦ elim (Bool-cases (m.session_type == super_group_chat_type)) [
      | inl g ↦ let h' = rw (e, f, g, send_by_session) at h in prepared-checked c m _ _ h'
      | inr g ↦ let h' = rw (e, f, g, send_by_session) at h in absurd (h' refl)
    ]
  ]
]

-- A message, other than one of the notification session, for which anything is sent has passed
-- messageVerification, and if it is a receipt such receipts are enabled.
pub sent_is_checked :
    (c : SendContext) (m : MsgData)
    → m.session_type ≢ notification_chat_type
    → (send_msg c (some m)).0 ≢ []
    → (is_message_has_read_enabled c m ≡ true) × (message_verification c.verify (verified m) ≡ none)
unfolding send_msg encapsulate_msg_data
sent_is_checked c m n h = elim (Bool-cases (is_message_has_read_enabled c m)) [
  | inl e ↦
      let h' = rw (e, send_msg) at h in (e, by_session-checked c (encapsulate_msg_data c m) n h')
  | inr e ↦ let h' = rw (e, send_msg) at h in absurd (h' refl)
]
