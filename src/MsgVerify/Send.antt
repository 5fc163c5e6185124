-- ===== src/MsgVerify/Send.antt =====
-- internal/rpc/msg/verify.go: messageVerification.
pub mod Laws
use k.Base.{
  ◌&&◌, ℕ, ◌==◌, leb, Bool, true, false, not, ◌||◌, if◌then◌else◌, Option, none, some, List, Str,
  contains, ◌⊎◌, inl, inr,
}
use k.Constant.{single_chat_type, super_group_chat_type}

-- What the verification reads of a message.
pub record MsgData : Type 0 where
  pub send_id : Str
  pub recv_id : Str
  pub group_id : Str
  pub session_type : ℕ
  pub content_type : ℕ

pub record GroupInfo : Type 0 where
  pub status : ℕ
  pub group_type : ℕ

pub record GroupMemberFullInfo : Type 0 where
  pub role_level : ℕ
  pub mute_end_time : ℕ

-- The errors; `outside` is one of another service, by its code.
pub data VerifyError : Type 0 where
  blocked_by_peer not_peers_friend dismissed_already not_in_group_yet : VerifyError
  muted_in_group muted_group record_not_found : VerifyError
  outside : ℕ → VerifyError

-- The configuration, the clock, and the services that are asked.
pub record Services : Type 0 where
  pub managers : List Str
  pub friend_verify : Bool
  pub now : ℕ
  pub is_blocked : Str → Str → VerifyError ⊎ Bool
  pub is_friend : Str → Str → VerifyError ⊎ Bool
  pub get_group_info : Str → VerifyError ⊎ GroupInfo
  pub get_group_member : Str → Str → VerifyError ⊎ GroupMemberFullInfo

-- NotificationBegin to NotificationEnd
unfoldable pub is_notification_content : ℕ → Bool
is_notification_content t = leb t 5000 && leb 1000 t

verify_friend : VerifyError ⊎ Bool → Option VerifyError
verify_friend (inl e) = some e
verify_friend (inr true) = none
verify_friend (inr false) = some not_peers_friend

verify_blocked : VerifyError ⊎ Bool → Option VerifyError → Option VerifyError
verify_blocked (inl e) next = some e
verify_blocked (inr true) next = some blocked_by_peer
verify_blocked (inr false) next = next

unfoldable pub verify_single : Services → MsgData → Option VerifyError
unfolding verify_friend verify_blocked
verify_single s m =
    if contains m.send_id s.managers
    then none
    else if is_notification_content m.content_type && not (m.content_type == 1601)
    then none
    else verify_blocked (s.is_blocked m.send_id m.recv_id)
        (if s.friend_verify then verify_friend (s.is_friend m.send_id m.recv_id) else none)

verify_member : Services → GroupInfo → VerifyError ⊎ GroupMemberFullInfo → Option VerifyError
verify_member s group (inl record_not_found) = some not_in_group_yet
verify_member s group (inl e) = some e
verify_member s group (inr member) =
    if member.role_level == 100
    then none
    else if leb s.now member.mute_end_time
    then some muted_in_group
    else if (group.status == 3) && not (member.role_level == 60)
    then some muted_group
    else none

verify_in_group : Services → MsgData → VerifyError ⊎ GroupInfo → Option VerifyError
unfolding verify_member
verify_in_group s m (inl e) = some e
verify_in_group s m (inr group) =
    if (group.status == 2) && not (m.content_type == 1511)
    then some dismissed_already
    else if group.group_type == 1
    then none
    else if contains m.send_id s.managers
    then none
    else if is_notification_content m.content_type
    then none
    else verify_member s group (s.get_group_member m.group_id m.send_id)

unfoldable pub verify_group : Services → MsgData → Option VerifyError
unfolding verify_in_group
verify_group s m = verify_in_group s m (s.get_group_info m.group_id)

unfoldable pub message_verification : Services → MsgData → Option VerifyError
message_verification s m =
    if m.session_type == single_chat_type
    then verify_single s m
    else if m.session_type == super_group_chat_type
    then verify_group s m
    else none
