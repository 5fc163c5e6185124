-- ===== src/Group/Calls.antt =====
-- internal/rpc/group/group.go: what a request brings, and the checks that the handlers share.
-- Notifications are left out: the handlers ignore what they answer.
use k.Base.{
  ℕ, ◌==◌, Bool, true, false, ◌||◌, if◌then◌else◌, Option, none, some, List, [], ◌∷◌, Str, str_eq,
  ◌⊎◌,
}
use k.Group.Tables.{
  Tables, GroupMemberModel, GroupError, record_not_found, no_permission, contain, take_group_member,
}

-- The caller of a request, the configuration, and the services that the handlers ask. `fill` is the
-- user service's answer where members have no name; `set_max_seq` closes the conversation of those
-- who leave.
pub record Context : Type 0 where
  pub op_user_id : Str
  pub managers : List Str
  pub now : ℕ
  pub found_rows : Bool
  pub fill : List GroupMemberModel → Option GroupError
  pub user_info : Str → Option GroupError
  pub callback : GroupMemberModel → GroupError ⊎ GroupMemberModel
  pub first_conversation : Str → List Str → Option GroupError
  pub set_max_seq : Str → List Str → Option GroupError
  pub super_delete : Str → List Str → Option GroupError
  pub super_dismiss : Str → Option GroupError

-- What a handler leaves in the tables, and its error.
abbrev pub Outcome : Type 0
Outcome = Tables × Option GroupError

abbrev pub refuse : Tables → GroupError → Outcome
refuse t e = (t, some e)

-- `if err != nil { return nil, err }`
abbrev pub checked : Tables → Option GroupError → Outcome → Outcome
checked t none next = next
checked t (some e) next = (t, some e)

-- A lookup that gives ErrRecordNotFound where there is no row.
abbrev pub taken {ℓ} : {A : Type ℓ} → Tables → Option A → (A → Outcome) → Outcome
taken t none next = (t, some record_not_found)
taken t (some row) next = next row

-- A lookup with its own branch for a missing row.
abbrev pub found {ℓ} : {A : Type ℓ} → Option A → Outcome → (A → Outcome) → Outcome
found none missing next = missing
found (some row) missing next = next row

unfoldable pub is_app_manager_uid : Context → Bool
is_app_manager_uid c = contain c.managers c.op_user_id

unfoldable pub check_access_v3 : Context → Str → Option GroupError
check_access_v3 c owner =
    if contain c.managers c.op_user_id
    then none
    else if str_eq c.op_user_id owner
    then none
    else some no_permission

abbrev pub is_owner_or_admin : GroupMemberModel → Bool
is_owner_or_admin m = (m.role_level == 100) || (m.role_level == 60)

unfoldable pub check_group_admin : Context → Tables → Str → Option GroupError
check_group_admin c t g =
    if is_app_manager_uid c then none else elim (take_group_member t g c.op_user_id) [
      | none ↦ some record_not_found
      | some m ↦ if is_owner_or_admin m then none else some no_permission
    ]

-- utils.IsDuplicateStringSlice
abbrev pub is_duplicate : List Str → Bool
is_duplicate [] = false
is_duplicate (u ∷ us) = contain us u || is_duplicate us

abbrev pub is_nil {ℓ} : {A : Type ℓ} → List A → Bool
is_nil [] = true
is_nil (u ∷ us) = false
