-- ===== src/Group/Creating.antt =====
-- internal/rpc/group/group.go: CreateGroup with GenGroupID, and InviteUserToGroup.
use k.Base.{
  ◌&&◌, ℕ, ◌==◌, not, if◌then◌else◌, Option, none, some, List, [], ◌∷◌, ◌++◌, map, length, Str, ◌⊎◌,
  inl, inr, pos,
}
use k.Group.Tables.{
  Tables, GroupModel, GroupMemberModel, GroupRequestModel, GroupError, args, record_not_found,
  no_permission, dismissed_already, user_id_not_found, group_id_existed, err_data, duplicate_row,
  contain, take_group, take_group_member, create_members, create_groups, create_group_requests,
}
use k.Group.Calls.{
  Context, Outcome, refuse, checked, taken, found, is_app_manager_uid, check_access_v3,
  is_owner_or_admin, is_duplicate, is_nil,
}

pub record CreateGroupReq : Type 0 where
  pub owner_user_id : Str
  pub member_user_ids : List Str
  pub admin_user_ids : List Str
  pub group : GroupModel

-- The services that these two handlers ask besides: the users that are known among some, the hook
-- before a creation, which may change the request, the ten random names that GenGroupID draws, and
-- the collection of super groups.
pub record Creation : Type 0 where
  pub get_users_info : List Str → GroupError ⊎ List Str
  pub before_create : CreateGroupReq → GroupError ⊎ CreateGroupReq
  pub drawn : List Str
  pub super_create : Str → List Str → Option GroupError

-- What a service answers, or its error.
abbrev pub answered {ℓ} : {A : Type ℓ} → Tables → GroupError ⊎ A → (A → Outcome) → Outcome
answered t (inl e) next = (t, some e)
answered t (inr a) next = next a

-- The first drawn name that no group has.
unfoldable draw : Tables → List Str → GroupError ⊎ Str
draw t [] = inl err_data
draw t (id ∷ ids) =
    let rest = draw t ids in elim (take_group t id) [ none ↦ inr id | some g ↦ rest ]

unfoldable gen_group_id : Tables → List Str → Str → GroupError ⊎ Str
gen_group_id t drawn id =
    if is_nil id
    then draw t drawn
    else elim (take_group t id) [ none ↦ inr id | some g ↦ inl group_id_existed ]

-- The row of a user whom the caller puts into a group.
abbrev row_of : Context → Str → ℕ → Str → GroupMemberModel
row_of c g role u = record {
  group_id = g;
  user_id = u;
  role_level = role;
  join_source = 2;
  inviter_user_id = c.op_user_id;
  operator_user_id = c.op_user_id;
  mute_end_time = 0;
}

-- The callback on each row in turn; the first error ends it.
unfoldable call_back : Context → List GroupMemberModel → GroupError ⊎ List GroupMemberModel
call_back c [] = inr []
call_back c (row ∷ rows) = elim (c.callback row) [
  | inl e ↦ inl e
  | inr r ↦ elim (call_back c rows) [ inl e ↦ inl e | inr rs ↦ inr (r ∷ rs) ]
]

-- What the transaction leaves, if it is not undone.
abbrev committed : Tables → Option Tables → (Tables → Outcome) → Outcome
committed t none next = (t, some duplicate_row)
committed t (some left) next = next left

-- All the users of a new group, the caller among them.
unfoldable all_users : Context → CreateGroupReq → List Str
all_users c req =
    let ids = (req.member_user_ids ++ req.admin_user_ids) ++ req.owner_user_id ∷ [] in
    if contain ids c.op_user_id then ids else ids ++ c.op_user_id ∷ []

-- The rows of a working group: the owner first, then admins and members; of a super group the owner.
unfoldable new_rows : Context → CreateGroupReq → Str → List GroupMemberModel
new_rows c req g =
    row_of c g 100 req.owner_user_id
    ∷ (if req.group.group_type == 1
        then []
        else map (row_of c g 60) req.admin_user_ids ++ map (row_of c g 20) req.member_user_ids)

-- From the hook on; the list of users is the one of the request before it.
unfoldable create_named : Context → Creation → Tables → CreateGroupReq → List Str → Str → Outcome
create_named c x t req users g = answered t (call_back c (new_rows c req g)) (λ rows.
    checked t (if req.group.group_type == 1 then x.super_create g users else none) (
      committed t (create_groups t (record req.group { group_id = g }) rows)
        (λ left. (left, none))))

unfoldable create_group : Context → Creation → Tables → CreateGroupReq → Outcome
create_group c x t req =
    let users = all_users c req in
    if is_nil req.owner_user_id
    then refuse t args
    else if not (req.group.group_type == 2)
    then refuse t args
    else checked t (check_access_v3 c req.owner_user_id) (
        if is_duplicate users
        then refuse t args
        else answered t (x.get_users_info users) (λ known.
          if not (length known == length users)
          then refuse t user_id_not_found
          else answered t (x.before_create req) (λ changed.
            answered t (gen_group_id t x.drawn changed.group.group_id)
              (create_named c x t changed users))))

-- An invitation that waits for the consent of the group.
abbrev invitation : Context → Str → Str → GroupRequestModel
invitation c g u = record {
  user_id = u;
  group_id = g;
  handle_result = pos 0;
  req_msg = [];
  handled_msg = [];
  join_source = 2;
  inviter_user_id = c.op_user_id;
}

-- The users enter at once.
unfoldable enter : Context → Creation → Tables → GroupModel → Str → List Str → Outcome
enter c x t group g ids =
    if group.group_type == 1
    then checked t (x.super_create g ids) (checked t (c.first_conversation g ids) (t, none))
    else answered t (call_back c (map (row_of c g 20) ids)) (λ rows.
      committed t (create_members t rows)
        (λ left. checked left (c.first_conversation g ids) (left, none)))

-- A caller who is no manager is a member, and where all need verification an admin or the owner.
unfoldable invite_as : Context → Creation → Tables → GroupModel → Str → List Str → Outcome
invite_as c x t group g ids =
    if is_app_manager_uid c
    then enter c x t group g ids
    else found (take_group_member t g c.op_user_id) (refuse t no_permission) (λ op.
      checked t (c.fill (op ∷ [])) (
        if (group.need_verification == 1) && not (is_owner_or_admin op)
        then (create_group_requests t (map (invitation c g) ids), none)
        else enter c x t group g ids))

unfoldable invite_user_to_group : Context → Creation → Tables → Str → List Str → Outcome
invite_user_to_group c x t g ids =
    if is_nil ids
    then refuse t args
    else if is_duplicate ids
    then refuse t args
    else taken t (take_group t g) (λ group.
      if group.status == 2
      then refuse t dismissed_already
      else answered t (x.get_users_info ids) (λ known.
        if not (length known == length ids)
        then refuse t record_not_found
        else invite_as c x t group g ids))
