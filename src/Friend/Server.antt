-- ===== src/Friend/Server.antt =====
-- internal/rpc/friend/friend.go and black.go: the handlers that change the tables, and the two that
-- read a relation. Notifications are left out: the handlers ignore what they answer.
pub mod Relation
pub mod Import
pub mod Refinement
pub mod Answers
pub mod Faults
pub mod Progress
use k.Base.{
  ◌&&◌, ℤ, pos, negsuc, ℤ_dec, is_yes, Bool, true, false, if◌then◌else◌, Option, none, some, List,
  [], ◌∷◌, ◌||◌, Str, str_eq, contain, checked_at, taken_at,
}
use k.Friend.Tables.{
  FriendRequestModel, BlackModel, FriendTables, create_black, delete_black, find_black_user_ids,
}
use k.Friend.Database.{
  FriendError, args, no_permission, can_not_add_yourself, relationship_already, duplicate_row,
  FriendContext, FriendOutcome, check_in, add_friend_request, become_friends, refuse_friend_request,
  agree_friend_request, delete, update_remark, find_friends_with_error,
}

unfoldable pub check_access_v3 : FriendContext → Str → Option FriendError
check_access_v3 c owner =
    if contain c.managers c.op_user_id
    then none
    else if str_eq c.op_user_id owner
    then none
    else some no_permission

-- CheckAdmin
unfoldable pub check_admin : FriendContext → Option FriendError
check_admin c = if contain c.managers c.op_user_id then none else some no_permission

-- userRpcClient.Access
unfoldable pub access : FriendContext → Str → Option FriendError
access c owner = elim (c.users_info (owner ∷ [])) [
  | none ↦ check_access_v3 c owner
  | some e ↦ some e
]

pub record ApplyToAddFriendReq : Type 0 where
  pub from_user_id : Str
  pub to_user_id : Str
  pub req_msg : Str
  pub ex : Str

unfoldable pub apply_to_add_friend :
    FriendContext → FriendTables → ApplyToAddFriendReq → FriendOutcome
apply_to_add_friend c t req = checked_at t (check_access_v3 c req.from_user_id) (
    if str_eq req.to_user_id req.from_user_id
    then (t, some can_not_add_yourself)
    else checked_at t (c.callback req.from_user_id req.to_user_id req.req_msg) (
        checked_at t (c.users_info (req.to_user_id ∷ req.from_user_id ∷ [])) (
          let (in1, in2) = check_in t req.from_user_id req.to_user_id in
          if in1 && in2
          then (t, some relationship_already)
          else add_friend_request t req.from_user_id req.to_user_id req.req_msg req.ex)))

-- utils.Duplicate
abbrev pub duplicate : List Str → Bool
duplicate [] = false
duplicate (u ∷ us) = contain us u || duplicate us

unfoldable pub import_friends : FriendContext → FriendTables → Str → List Str → FriendOutcome
import_friends c t owner ids = checked_at t (check_admin c) (
    checked_at t (c.users_info (owner ∷ ids)) (
      if contain ids owner
      then (t, some can_not_add_yourself)
      else if duplicate ids
      then (t, some args)
      else become_friends c t owner ids (pos 1)))

pub record RespondFriendApplyReq : Type 0 where
  pub from_user_id : Str
  pub to_user_id : Str
  pub handle_result : ℤ
  pub handle_msg : Str

abbrev pub answer_is : ℤ → ℤ → Bool
answer_is a b = is_yes (ℤ_dec a b)

abbrev pub request_of : RespondFriendApplyReq → FriendRequestModel
request_of req = record {
  from_user_id = req.from_user_id;
  to_user_id = req.to_user_id;
  handle_result = req.handle_result;
  req_msg = [];
  handler_user_id = [];
  handle_msg = req.handle_msg;
  ex = [];
}

unfoldable pub respond_friend_apply :
    FriendContext → FriendTables → RespondFriendApplyReq → FriendOutcome
respond_friend_apply c t req = checked_at t (check_access_v3 c req.to_user_id) (
    if answer_is req.handle_result (pos 1)
    then agree_friend_request c t (request_of req)
    else if answer_is req.handle_result (negsuc 0)
    then refuse_friend_request t (request_of req)
    else (t, some args))

unfoldable pub delete_friend : FriendContext → FriendTables → Str → Str → FriendOutcome
delete_friend c t owner friend =
    checked_at t (access c owner) (
      checked_at t (find_friends_with_error t owner (friend ∷ [])) (delete c t owner (friend ∷ [])))

unfoldable pub set_friend_remark : FriendContext → FriendTables → Str → Str → Str → FriendOutcome
set_friend_remark c t owner friend remark = checked_at t (access c owner) (
    checked_at t (find_friends_with_error t owner (friend ∷ []))
      (update_remark c t owner friend remark))

unfoldable pub add_black : FriendContext → FriendTables → Str → Str → FriendOutcome
add_black c t owner block = checked_at t (check_access_v3 c owner) (
    checked_at t (c.users_info (owner ∷ block ∷ [])) (
      taken_at t duplicate_row
        (create_black t (record {
          owner_user_id = owner;
          block_user_id = block;
          operator_user_id = c.op_user_id;
        }))
        (λ next. (next, c.del_black_ids owner))))

unfoldable pub remove_black : FriendContext → FriendTables → Str → Str → FriendOutcome
remove_black c t owner block =
    checked_at t (access c owner) (delete_black t owner block, c.del_black_ids owner)

unfoldable pub is_friend : FriendTables → Str → Str → Bool × Bool
is_friend t u v = check_in t u v

unfoldable pub is_black : FriendTables → Str → Str → Bool × Bool
is_black t u v = (contain (find_black_user_ids t u) v, contain (find_black_user_ids t v) u)

-- What a client asks of the friend service.
pub data FriendCommand : Type 0 where
  apply : ApplyToAddFriendReq → FriendCommand
  import_all : Str → List Str → FriendCommand
  respond : RespondFriendApplyReq → FriendCommand
  unfriend : Str → Str → FriendCommand
  remark : Str → Str → Str → FriendCommand
  block : Str → Str → FriendCommand
  unblock : Str → Str → FriendCommand

unfoldable pub handle : FriendContext → FriendTables → FriendCommand → FriendOutcome
handle c t (apply req) = apply_to_add_friend c t req
handle c t (import_all owner ids) = import_friends c t owner ids
handle c t (respond req) = respond_friend_apply c t req
handle c t (unfriend owner friend) = delete_friend c t owner friend
handle c t (remark owner friend text) = set_friend_remark c t owner friend text
handle c t (block owner u) = add_black c t owner u
handle c t (unblock owner u) = remove_black c t owner u

-- Requests of several callers, one after the other.
abbrev pub serve : FriendTables → List (FriendContext × FriendCommand) → FriendTables
serve t [] = t
serve t ((c, command) ∷ rest) = serve (handle c t command).0 rest
