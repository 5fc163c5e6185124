-- ===== src/Tests/Send.antt =====
-- A user who writes to a peer and to one who has blocked the user.
use k.Base.{
  ◌≡◌, refl, ap, inl, inr, true, false, none, some, [], ◌∷◌, length, Str, codes, lookup, str_eq,
  str_dec, arith,
}
use k.MsgStore.Convert.{MsgData}
use k.MsgVerify.Send.{message_verification, verify_single, is_notification_content}
use k.MsgProcessor.Options.{is, is_not_notification}
use k.MsgProcessor.Conversation.{is_notification_by_msg}
use k.MsgVerify.Receive.{modify_message_by_user_message_receive_opt}
use k.MsgSend.{
  SendContext, callback_continue, verified, is_message_has_read_enabled, encapsulate_msg_data,
  encapsulated_options, verification, deliver, send_prepared, prepare_single, send_msg_single_chat,
  send_by_session, send_msg, callback_before_send_single_msg, callback_msg_modify,
}
use k.MsgSend.Laws.{Accounted, send_msg-Accounted, sent_is_checked}

abbrev context : SendContext
context = record {
  single_receipts = true;
  group_receipts = false;
  get_msg_id = λ u. codes "id";
  now = 1000;
  verify = record {
    managers = codes "root" ∷ [];
    friend_verify = false;
    now = 1000;
    is_blocked = λ u v. inr (str_eq v (codes "c"));
    is_friend = λ u v. inr false;
    get_group_info = λ g. inr (record { status = 0; group_type = 2 });
    get_group_member = λ g u. inr (record { role_level = 20; mute_end_time = 0 });
  };
  settings = record {
    global_opt = λ u. inr 0;
    single_opt = λ u conv. inr 0;
    set_switch = λ o key b. (key, b) ∷ o;
  };
  callbacks = record {
    before_single_enable = false;
    after_single_enable = false;
    modify_enable = false;
    post_before_single = λ m. none;
    post_before_group = λ m. none;
    post_modify = λ m. inl callback_continue;
    not_nil_replace = λ old o. elim o [ none ↦ old | some new ↦ new ];
    replace_push = λ old o. some (elim o [ none ↦ old | some new ↦ some new ]);
  };
  single_key = λ u v. u;
  group_key = λ g. g;
  single_conversation = λ u v. u;
  difference = λ us vs. vs;
  get_group_member_ids = λ g. none;
  msg_to_mq_ok = λ key m. true;
}

abbrev message_to : Str → MsgData
message_to receiver = record {
  send_id = codes "a";
  recv_id = receiver;
  group_id = [];
  client_msg_id = codes "c";
  server_msg_id = [];
  sender_platform_id = 1;
  sender_nickname = [];
  sender_face_url = [];
  session_type = 1;
  msg_from = 100;
  content_type = 101;
  content = codes "hello";
  seq = 0;
  send_time = 0;
  create_time = 4;
  status = 1;
  is_read = false;
  options = [];
  offline_push_info = none;
  at_user_id_list = [];
  attached_info = [];
  ex = [];
  key_version = 0;
}

send_msg-Accounted_example : Accounted (send_msg context (some (message_to (codes "b"))))
send_msg-Accounted_example = send_msg-Accounted context (some (message_to (codes "b")))

one_sent : length (send_msg context (some (message_to (codes "b")))).0 ≡ 1
unfolding send_msg is_message_has_read_enabled encapsulate_msg_data encapsulated_options
    send_by_session send_msg_single_chat send_prepared prepare_single verification
    message_verification verify_single is_notification_content callback_before_send_single_msg
    callback_msg_modify deliver str_dec is_notification_by_msg is_not_notification is lookup
    modify_message_by_user_message_receive_opt
one_sent = refl

sent_is_checked_example :
    (is_message_has_read_enabled context (message_to (codes "b")) ≡ true)
    × (message_verification context.verify (verified (message_to (codes "b"))) ≡ none)
sent_is_checked_example =
    sent_is_checked context (message_to (codes "b")) (λ e. omega (arith, e))
      (λ e. omega (arith, one_sent, ap length e))
