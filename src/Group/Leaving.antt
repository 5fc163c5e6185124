-- ===== src/Group/Leaving.antt =====
-- internal/rpc/group/group.go: KickGroupMember and QuitGroup.
use k.Base.{◌==◌, Bool, ◌||◌, if◌then◌else◌, Option, none, some, List, [], ◌∷◌, ◌++◌, Str, str_eq}
use k.Group.Tables.{
  Tables, GroupMemberModel, GroupError, args, no_permission, user_id_not_found, contain, find,
  take_group, take_group_member, find_group_member, find_owners, delete_group_member,
}
use k.Group.Calls.{
  Context, Outcome, refuse, checked, taken, is_app_manager_uid, check_access_v3, is_duplicate,
  is_nil,
}

-- The switch on the role of the one who kicks.
unfoldable pub kick_right : Option GroupMemberModel → GroupMemberModel → Option GroupError
kick_right none target = some no_permission
kick_right (some op) target =
    if op.role_level == 100
    then none
    else if op.role_level == 60
    then if (target.role_level == 100) || (target.role_level == 60)
      then some no_permission
      else none
    else some no_permission

-- The loop over the kicked users; `members` are the rows that were found.
unfoldable pub check_kicked :
    Bool → List GroupMemberModel → Option GroupMemberModel → List Str → Option GroupError
check_kicked manager members op [] = none
check_kicked manager members op (u ∷ us) =
    let rest = check_kicked manager members op us in
    elim (find (λ row. str_eq row.user_id u) members) [
      | none ↦ some user_id_not_found
      | some target ↦
          if manager then rest else elim (kick_right op target) [ none ↦ rest | some e ↦ some e ]
    ]

unfoldable pub kick_from_group : Context → Tables → Str → List Str → Outcome
kick_from_group c t g ids =
    let members = find_group_member t g (ids ++ c.op_user_id ∷ []) in
    let op = find (λ row. str_eq row.user_id c.op_user_id) members in
    checked t (c.fill members) (
      checked t (check_kicked (is_app_manager_uid c) members op ids) (
        checked t (c.fill (find_owners t g)) (
          let left = delete_group_member t g ids in
          checked left (c.set_max_seq g ids) (left, none))))

unfoldable pub kick_group_member : Context → Tables → Str → List Str → Outcome
unfolding kick_from_group
kick_group_member c t g ids = taken t (take_group t g) (λ group.
    if is_nil ids
    then refuse t args
    else if is_duplicate ids
    then refuse t args
    else if contain ids c.op_user_id
    then refuse t args
    else if group.group_type == 1
    then checked t (c.super_delete g ids) (checked t (c.set_max_seq g ids) (t, none))
    else kick_from_group c t g ids)

unfoldable pub quit_from_group : Context → Tables → Str → Str → Outcome
quit_from_group c t g u = taken t (take_group_member t g u) (λ info.
    checked t (c.fill (info ∷ [])) (
      if info.role_level == 100
      then refuse t no_permission
      else (let left = delete_group_member t g (u ∷ []) in
          checked left (c.set_max_seq g (u ∷ [])) (left, none))))

-- An empty user is the caller.
abbrev pub who_quits : Context → Str → Str
who_quits c u = if is_nil u then c.op_user_id else u

unfoldable pub quit_group : Context → Tables → Str → Str → Outcome
quit_group c t g u = checked t (if is_nil u then none else check_access_v3 c u) (
    taken t (take_group t g) (λ group.
      if group.group_type == 1
      then checked t (c.super_delete g (who_quits c u ∷ []))
          (checked t (c.set_max_seq g (who_quits c u ∷ [])) (t, none))
      else quit_from_group c t g (who_quits c u)))
