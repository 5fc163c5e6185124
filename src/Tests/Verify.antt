-- ===== src/Tests/Verify.antt =====
-- Messages between users and in a group, and a revocation by an admin.
use k.Base.{
  ◌≡◌, ◌≢◌, ◌⊎◌, ◌↔◌, refl, sym, ◌∙◌, inr, Bool, true, false, if◌then◌else◌, Option, none, some,
  List, [], ◌∷◌, ℕ, pos, Str, codes, str_eq, str_dec, arith, contains,
}
use k.MsgVerify.Send.{
  MsgData, GroupInfo, GroupMemberFullInfo, Services, is_notification_content, message_verification,
}
use k.MsgVerify.Send.Laws.{MayWrite, single_chat_passes, group_chat_passes}
use k.MsgVerify.Receive.{Settings, modify_message_by_user_message_receive_opt}
use k.MsgVerify.Receive.Laws.{receive_opt_delivers}
use k.MsgVerify.Revoke.{
  Message, RevokeMsgReq, RevokeModel, Context, is_app_manager_uid, check_access_v3, group_right,
  find_role, write_revoke, revoke_message, revoke_msg, first_message,
}
use k.MsgVerify.Revoke.Rights.{Revokes, revoke_msg-Revokes}

abbrev services : Services
services = record {
  managers = codes "root" ∷ [];
  friend_verify = true;
  now = 1000;
  is_blocked = λ a b. inr false;
  is_friend = λ a b. inr true;
  get_group_info = λ g. inr (record { status = 3; group_type = 2 });
  get_group_member = λ g u. inr (record { role_level = 60; mute_end_time = 10 });
}

abbrev message : ℕ → MsgData
message t = record {
  send_id = codes "a";
  recv_id = codes "b";
  group_id = codes "g";
  session_type = t;
  content_type = 101;
}

not_manager : contains (codes "a") (codes "root" ∷ []) ≡ false
unfolding str_dec
not_manager = refl

ordinary : is_notification_content 101 ≡ false
unfolding is_notification_content
ordinary = refl

single_chat_passes_example :
    (message_verification services (message 1) ≡ none)
    ↔ ((◌≡◌ {A = Bool} false false) × ((◌≡◌ {A = Bool} true false) ⊎ (◌≡◌ {A = Bool} true true)))
single_chat_passes_example =
    single_chat_passes services (message 1) false true refl not_manager ordinary refl refl

abbrev muted : GroupInfo
muted = record { status = 3; group_type = 2 }

abbrev admin : GroupMemberFullInfo
admin = record { role_level = 60; mute_end_time = 10 }

group_chat_passes_example :
    (message_verification services (message 3) ≡ none) ↔ MayWrite 1000 muted admin
group_chat_passes_example =
    group_chat_passes services (message 3) muted admin refl not_manager ordinary refl (omega arith)
      refl

abbrev no_messages : Settings
no_messages = record {
  global_opt = λ u. inr 0;
  single_opt = λ u c. inr 1;
  set_switch = λ o key b. (key, b) ∷ o;
}

receive_opt_delivers_example :
    ((modify_message_by_user_message_receive_opt no_messages (codes "b") (codes "si_a_b") 2200 []).0
      ≡ true)
    ↔ ((◌≢◌ {A = ℕ} 0 1) × ((◌≡◌ {A = ℕ} 0 2) ⊎ (◌≢◌ {A = ℕ} 1 1) ⊎ (◌≡◌ {A = ℕ} 2200 2200)))
receive_opt_delivers_example =
    receive_opt_delivers no_messages (codes "b") (codes "si_a_b") 2200 [] 0 1 refl refl

abbrev stored : Message
stored = record {
  send_id = codes "m";
  recv_id = [];
  group_id = codes "g";
  session_type = 3;
  content_type = 101;
}

abbrev roles : Str → Option ℕ
roles u = if str_eq u (codes "a") then some 60 else some 20

abbrev admin_call : Context
admin_call = record {
  op_user_id = codes "a";
  managers = codes "root" ∷ [];
  now = 1000;
  get_user_info = λ u. inr (record { nickname = codes "A"; app_manger_level = 0 });
  get_msg_by_seqs = λ u c n. inr (some stored ∷ []);
  members = λ g us. inr roles;
  revoke = λ c n r. none;
  notify = λ m. none;
}

abbrev revocation : RevokeMsgReq
revocation = record { user_id = codes "a"; conversation_id = codes "sg_g"; seq = pos 4 }

caller_is_user : is_app_manager_uid admin_call ≡ false
unfolding is_app_manager_uid str_dec
caller_is_user = refl

written :
    (revoke_msg admin_call revocation).0
    ≡ record { role = 60; user_id = codes "a"; nickname = codes "A"; time = 1000 } ∷ []
unfolding revoke_msg revoke_message find_role write_revoke check_access_v3 group_right
    is_app_manager_uid str_dec
written = refl

cons_ne : (r : RevokeModel) (rs : List RevokeModel) → r ∷ rs ≢ []
cons_ne r rs e = ground arith

writes : (revoke_msg admin_call revocation).0 ≢ []
writes e = absurd (cons_ne _ _ (sym written ∙ e))

revoke_msg-Revokes_example :
    (msgs : List (Option Message)) × (m : Message) × (admin_call.get_msg_by_seqs
        (codes "a")
        (codes "sg_g")
        (pos 4)
      ≡ inr msgs)
    × (first_message msgs ≡ inr m)
    × Revokes admin_call revocation m
revoke_msg-Revokes_example = revoke_msg-Revokes admin_call revocation caller_is_user writes
