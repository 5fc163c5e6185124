-- ===== src/Group/Roles.antt =====
-- internal/rpc/group/group.go: TransferGroupOwner, DismissGroup, and the mutes.
use k.Base.{
  ◌&&◌, ℕ, ◌+◌, ◌*◌, ◌==◌, Bool, not, ◌||◌, if◌then◌else◌, Option, none, some, [], ◌∷◌, Str, str_eq,
}
use k.Group.Tables.{
  Tables, GroupMemberModel, GroupError, args, no_permission, dismissed_already, rows_affected, find,
  take_group, take_group_member, take_group_owner, find_group_member, update_status, dismiss_rows,
  update_mute_end, transfer_rows,
}
use k.Group.Calls.{
  Context, Outcome, refuse, checked, taken, found, is_app_manager_uid, check_group_admin,
}

-- The caller may transfer a group that is its own.
unfoldable pub transfer_right : Context → GroupMemberModel → Option GroupError
transfer_right c old =
    if is_app_manager_uid c
    then none
    else if str_eq c.op_user_id old.user_id && (old.role_level == 100)
    then none
    else some no_permission

abbrev pub commit_transfer : Tables → Option Tables → Outcome
commit_transfer t none = (t, some rows_affected)
commit_transfer t (some left) = (left, none)

unfoldable pub transfer_group_owner : Context → Tables → Str → Str → Str → Outcome
transfer_group_owner c t g old new = taken t (take_group t g) (λ group.
    if group.status == 2
    then refuse t dismissed_already
    else if str_eq old new
    then refuse t args
    else let members = find_group_member t g (old ∷ new ∷ []) in
      checked t (c.fill members) (
        found (find (λ row. str_eq row.user_id old) members) (refuse t args) (λ from.
          found (find (λ row. str_eq row.user_id new) members) (refuse t args) (λ to.
            checked t (transfer_right c from)
              (commit_transfer t (transfer_rows c.found_rows t g old new to.role_level))))))

unfoldable dismiss_group : Context → Tables → Str → Bool → Outcome
dismiss_group c t g delete_member = taken t (take_group_owner t g) (λ owner.
    checked t (c.fill (owner ∷ [])) (
      if not (is_app_manager_uid c) && not (str_eq owner.user_id c.op_user_id)
      then refuse t no_permission
      else taken t (take_group t g) (λ group.
        if not delete_member && (group.status == 2)
        then refuse t dismissed_already
        else (let left = dismiss_rows t g delete_member in
            if group.group_type == 1
            then checked left (c.super_dismiss g) (left, none)
            else (left, none)))))

-- The switch on the role of the one whose mute changes.
unfoldable mute_right : GroupMemberModel → GroupMemberModel → Option GroupError
mute_right op member =
    if member.role_level == 100
    then some no_permission
    else if member.role_level == 60
    then if op.role_level == 100 then none else some no_permission
    else if member.role_level == 20
    then if (op.role_level == 60) || (op.role_level == 100) then none else some no_permission
    else none

unfoldable set_mute : Context → Tables → Str → Str → ℕ → Outcome
set_mute c t g u time = taken t (take_group_member t g u) (λ member.
    checked t (c.fill (member ∷ [])) (
      if is_app_manager_uid c
      then (update_mute_end t g u time, none)
      else taken t (take_group_member t g c.op_user_id) (λ op.
        checked t (c.fill (op ∷ []))
          (checked t (mute_right op member) (update_mute_end t g u time, none)))))

-- Seconds from now on
unfoldable mute_group_member : Context → Tables → Str → Str → ℕ → Outcome
mute_group_member c t g u seconds = set_mute c t g u (c.now + seconds * 1000)

unfoldable cancel_mute_group_member : Context → Tables → Str → Str → Outcome
cancel_mute_group_member c t g u = set_mute c t g u 0

unfoldable mute_group : Context → Tables → Str → Outcome
mute_group c t g = checked t (check_group_admin c t g) (update_status t g 3, none)

unfoldable cancel_mute_group : Context → Tables → Str → Outcome
cancel_mute_group c t g = checked t (check_group_admin c t g) (update_status t g 0, none)
