-- ===== src/MsgVerify/Revoke.antt =====
-- internal/rpc/msg/revoke.go: who may take a message back.
pub mod Rights
use k.Base.{
  ◌&&◌, ℕ, ◌==◌, Bool, true, false, not, ◌||◌, if◌then◌else◌, Option, none, some, List, [], ◌∷◌,
  Str, str_eq, contains, ◌⊎◌, inl, inr, ℤ, pos, negsuc,
}
use k.Constant.{single_chat_type, super_group_chat_type}

-- A stored message, as the handler reads it.
pub record Message : Type 0 where
  pub send_id : Str
  pub recv_id : Str
  pub group_id : Str
  pub session_type : ℕ
  pub content_type : ℕ

pub data RevokeError : Type 0 where
  args record_not_found msg_already_revoke no_permission internal_server nil_dereference :
      RevokeError
  outside : ℕ → RevokeError

pub record RevokeMsgReq : Type 0 where
  pub user_id : Str
  pub conversation_id : Str
  pub seq : ℤ

-- What is written: the role and the user; the name and the time come with it.
pub record RevokeModel : Type 0 where
  pub role : ℕ
  pub user_id : Str
  pub nickname : Str
  pub time : ℕ

pub record UserInfo : Type 0 where
  pub nickname : Str
  pub app_manger_level : ℕ

-- The caller, the configuration, the clock, and the services. `members` is the map of the wanted members of a
-- group, by user; `revoke` is the write of the database and `notify` the notification.
pub record Context : Type 0 where
  pub op_user_id : Str
  pub managers : List Str
  pub now : ℕ
  pub get_user_info : Str → RevokeError ⊎ UserInfo
  pub get_msg_by_seqs : Str → Str → ℤ → RevokeError ⊎ List (Option Message)
  pub members : Str → List Str → RevokeError ⊎ (Str → Option ℕ)
  pub revoke : Str → ℤ → RevokeModel → Option RevokeError
  pub notify : Message → Option RevokeError

-- The calls of the database that a run makes, and its error.
abbrev pub Run : Type 0
Run = List RevokeModel × Option RevokeError

abbrev pub stop : RevokeError → Run
stop e = ([], some e)

abbrev pub asked {ℓ} : {A : Type ℓ} → RevokeError ⊎ A → (A → Run) → Run
asked (inl e) next = ([], some e)
asked (inr a) next = next a

abbrev pub checked : Option RevokeError → Run → Run
checked none next = next
checked (some e) next = ([], some e)

unfoldable pub is_app_manager_uid : Context → Bool
is_app_manager_uid c = contains c.op_user_id c.managers

unfoldable pub check_access_v3 : Context → Str → Option RevokeError
check_access_v3 c owner =
    if contains c.op_user_id c.managers
    then none
    else if str_eq c.op_user_id owner
    then none
    else some no_permission

-- The switch on the caller's role in the group, for a message of another; a user that the map does not
-- have is a nil pointer.
unfoldable pub group_right : Option ℕ → Option ℕ → Option RevokeError
group_right none sender = some nil_dereference
group_right (some role) sender =
    if role == 100
    then none
    else if role == 60
    then elim sender [
      | none ↦ some nil_dereference
      | some level ↦ if level == 20 then none else some no_permission
    ]
    else some no_permission

abbrev pub role_or_zero : Option ℕ → ℕ
role_or_zero none = 0
role_or_zero (some role) = role

-- utils.Distinct on the two users
abbrev pub wanted : Str → Str → List Str
wanted u v = if str_eq u v then u ∷ [] else u ∷ v ∷ []

-- The part for a caller who is no manager: the role that is written.
unfoldable pub find_role : Context → RevokeMsgReq → UserInfo → Message → (ℕ → Run) → Run
find_role c req user m next =
    if m.session_type == single_chat_type
    then checked (check_access_v3 c m.send_id) (next user.app_manger_level)
    else if m.session_type == super_group_chat_type
    then asked (c.members m.group_id (wanted req.user_id m.send_id)) (λ members.
      checked
        (if str_eq req.user_id m.send_id
          then none
          else group_right (members req.user_id) (members m.send_id))
        (next (role_or_zero (members req.user_id))))
    else stop internal_server

abbrev pub revoke_model : Context → RevokeMsgReq → UserInfo → ℕ → RevokeModel
revoke_model c req user role = record {
  role = role;
  user_id = req.user_id;
  nickname = user.nickname;
  time = c.now;
}

unfoldable pub write_revoke : Context → RevokeMsgReq → UserInfo → Message → ℕ → Run
write_revoke c req user m role =
    let model = revoke_model c req user role in
    elim (c.revoke req.conversation_id req.seq model) [
      | some e ↦ (model ∷ [], some e)
      | none ↦ (model ∷ [], c.notify m)
    ]

unfoldable pub revoke_message : Context → RevokeMsgReq → UserInfo → Message → Run
revoke_message c req user m =
    if m.content_type == 2101
    then stop msg_already_revoke
    else if is_app_manager_uid c
    then write_revoke c req user m 0
    else find_role c req user m (write_revoke c req user m)

abbrev pub first_message : List (Option Message) → RevokeError ⊎ Message
first_message [] = inl record_not_found
first_message (none ∷ ms) = inl record_not_found
first_message (some m ∷ ms) = inr m

abbrev pub is_negative : ℤ → Bool
is_negative (pos n) = false
is_negative (negsuc n) = true

abbrev pub is_empty : Str → Bool
is_empty [] = true
is_empty (c ∷ s) = false

unfoldable pub revoke_msg : Context → RevokeMsgReq → Run
revoke_msg c req =
    if is_empty req.user_id
    then stop args
    else if is_empty req.conversation_id
    then stop args
    else if is_negative req.seq
    then stop args
    else checked (check_access_v3 c req.user_id) (
        asked (c.get_user_info req.user_id) (λ user.
          asked (c.get_msg_by_seqs req.user_id req.conversation_id req.seq)
            (λ msgs. asked (first_message msgs) (revoke_message c req user))))
