-- ===== src/MsgStore/Convert.antt =====
-- pkg/common/convert/msg.go, and the conversion inside `BatchInsertChat2DB`.
use k.Base.{
  ◌&&◌, ℕ, ◌==◌, ◌≡◌, refl, Bool, true, false, if◌then◌else◌, Option, none, some, List, Str,
}
use k.Constant.{single_chat_type}
use k.MsgStore.Doc.{OfflinePushModel, MsgDataModel}

-- sdkws.OfflinePushInfo
pub record OfflinePushInfo : Type 0 where
  pub title : Str
  pub desc : Str
  pub ex : Str
  pub ios_push_sound : Str
  pub ios_badge_count : Bool

-- sdkws.MsgData
pub record MsgData : Type 0 where
  pub send_id : Str
  pub recv_id : Str
  pub group_id : Str
  pub client_msg_id : Str
  pub server_msg_id : Str
  pub sender_platform_id : ℕ
  pub sender_nickname : Str
  pub sender_face_url : Str
  pub session_type : ℕ
  pub msg_from : ℕ
  pub content_type : ℕ
  pub content : Str
  pub seq : ℕ
  pub send_time : ℕ
  pub create_time : ℕ
  pub status : ℕ
  pub is_read : Bool
  pub options : List (Str × Bool)
  pub offline_push_info : Option OfflinePushInfo
  pub at_user_id_list : List Str
  pub attached_info : Str
  pub ex : Str
  pub key_version : ℕ

offline_push_pb2db : Option OfflinePushInfo → Option OfflinePushModel
offline_push_pb2db none = none
offline_push_pb2db (some p) = some (record {
  title = p.title;
  desc = p.desc;
  ex = p.ex;
  ios_push_sound = p.ios_push_sound;
  ios_badge_count = p.ios_badge_count;
})

offline_push_db2pb : Option OfflinePushModel → Option OfflinePushInfo
offline_push_db2pb none = none
offline_push_db2pb (some p) = some (record {
  title = p.title;
  desc = p.desc;
  ex = p.ex;
  ios_push_sound = p.ios_push_sound;
  ios_badge_count = p.ios_badge_count;
})

-- The model that `BatchInsertChat2DB` writes for a message.
unfoldable pub chat_model : MsgData → MsgDataModel
unfolding offline_push_pb2db
chat_model m = record {
  send_id = m.send_id;
  recv_id = m.recv_id;
  group_id = m.group_id;
  client_msg_id = m.client_msg_id;
  server_msg_id = m.server_msg_id;
  sender_platform_id = m.sender_platform_id;
  sender_nickname = m.sender_nickname;
  sender_face_url = m.sender_face_url;
  session_type = m.session_type;
  msg_from = m.msg_from;
  content_type = m.content_type;
  content = m.content;
  seq = m.seq;
  send_time = m.send_time;
  create_time = m.create_time;
  status = m.status;
  is_read = false;
  options = m.options;
  offline_push = offline_push_pb2db m.offline_push_info;
  at_user_id_list = m.at_user_id_list;
  attached_info = m.attached_info;
  ex = m.ex;
  key_version = m.key_version;
}

-- `MsgPb2DB` of a message that is not nil. It leaves `KeyVersion` at its zero value.
unfoldable pub msg_pb2db : MsgData → MsgDataModel
unfolding chat_model
msg_pb2db m = record (chat_model m) { key_version = 0 }

-- `MsgDB2Pb` of a model that is not nil.
unfoldable pub msg_db2pb : MsgDataModel → MsgData
unfolding offline_push_db2pb
msg_db2pb m = record {
  send_id = m.send_id;
  recv_id = m.recv_id;
  group_id = m.group_id;
  client_msg_id = m.client_msg_id;
  server_msg_id = m.server_msg_id;
  sender_platform_id = m.sender_platform_id;
  sender_nickname = m.sender_nickname;
  sender_face_url = m.sender_face_url;
  session_type = m.session_type;
  msg_from = m.msg_from;
  content_type = m.content_type;
  content = m.content;
  seq = m.seq;
  send_time = m.send_time;
  create_time = m.create_time;
  status = m.status;
  is_read = if m.session_type == single_chat_type then m.is_read else false;
  options = m.options;
  offline_push_info = offline_push_db2pb m.offline_push;
  at_user_id_list = m.at_user_id_list;
  attached_info = m.attached_info;
  ex = m.ex;
  key_version = m.key_version;
}

-- A nil pointer converts to a nil pointer.
abbrev pub on_pointer {ℓ κ} : {A : Type ℓ} {B : Type κ} → (A → B) → Option A → Option B
on_pointer f none = none
on_pointer f (some a) = some (f a)

push_round_trip : (p : Option OfflinePushInfo) → offline_push_db2pb (offline_push_pb2db p) ≡ p
unfolding offline_push_db2pb offline_push_pb2db
push_round_trip none = refl
push_round_trip (some p) = refl

if_same : (b : Bool) → (if b then false else false) ≡ false
if_same true = refl
if_same false = refl

-- A message that `BatchInsertChat2DB` stores is read back as it was sent, but unread.
pub chat_model_round_trip : (m : MsgData) → msg_db2pb (chat_model m) ≡ record m { is_read = false }
unfolding msg_db2pb chat_model
chat_model_round_trip m =
    rw (push_round_trip m.offline_push_info, if_same (m.session_type == single_chat_type)) refl

-- Through `MsgPb2DB` a message also loses its key version.
pub msg_pb2db_round_trip :
    (m : MsgData) → msg_db2pb (msg_pb2db m) ≡ record m { is_read = false; key_version = 0 }
unfolding msg_db2pb msg_pb2db
msg_pb2db_round_trip m =
    rw (push_round_trip m.offline_push_info, if_same (m.session_type == single_chat_type)) refl

read_flag : (b c : Bool) → (if c then b else false) ≡ (b && c)
read_flag true true = refl
read_flag true false = refl
read_flag false true = refl
read_flag false false = refl

-- A stored message with a read mark is read back as it was sent, and read where it is a single chat's.
pub chat_model_read_back :
    (b : Bool) (m : MsgData)
    → msg_db2pb (record (chat_model m) { is_read = b })
      ≡ record m { is_read = b && (m.session_type == single_chat_type) }
unfolding msg_db2pb chat_model
chat_model_read_back b m =
    rw (push_round_trip m.offline_push_info, read_flag b (m.session_type == single_chat_type)) refl
