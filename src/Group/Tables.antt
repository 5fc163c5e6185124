-- ===== src/Group/Tables.antt =====
-- pkg/common/db/table/relation and pkg/common/db/controller/group.go: the group tables and their
-- transactions. The caches in front of them are left out: a read gives what the tables hold.
use k.Base.{
  ◌&&◌, ℕ, ℤ, ◌==◌, Bool, false, not, ◌||◌, if◌then◌else◌, Option, none, some, List, [], ◌∷◌, ◌++◌,
  Str, str_eq, keep, any,
}
pub use k.Base.{find, change, contain}

-- GroupModel: what the handlers read.
pub record GroupModel : Type 0 where
  pub group_id : Str
  pub status : ℕ
  pub group_type : ℕ
  pub need_verification : ℕ

-- GroupMemberModel, with the time of the mute's end in milliseconds.
pub record GroupMemberModel : Type 0 where
  pub group_id : Str
  pub user_id : Str
  pub role_level : ℕ
  pub join_source : ℕ
  pub inviter_user_id : Str
  pub operator_user_id : Str
  pub mute_end_time : ℕ

-- GroupRequestModel
pub record GroupRequestModel : Type 0 where
  pub user_id : Str
  pub group_id : Str
  pub handle_result : ℤ
  pub req_msg : Str
  pub handled_msg : Str
  pub join_source : ℕ
  pub inviter_user_id : Str

pub record Tables : Type 0 where
  pub groups : List GroupModel
  pub members : List GroupMemberModel
  pub requests : List GroupRequestModel

-- The errors that the handlers give; `outside` is one of another service, by its code.
pub data GroupError : Type 0 where
  args record_not_found no_permission dismissed_already user_id_not_found : GroupError
  group_type_not_support group_request_handled duplicate_row rows_affected : GroupError
  group_id_existed err_data : GroupError
  outside : ℕ → GroupError

abbrev pub is_group : Str → GroupModel → Bool
is_group g row = str_eq row.group_id g

abbrev pub is_member : Str → Str → GroupMemberModel → Bool
is_member g u row = str_eq row.group_id g && str_eq row.user_id u

abbrev pub is_request : Str → Str → GroupRequestModel → Bool
is_request g u row = str_eq row.group_id g && str_eq row.user_id u

unfoldable pub take_group : Tables → Str → Option GroupModel
take_group t g = find (is_group g) t.groups

unfoldable pub take_group_member : Tables → Str → Str → Option GroupMemberModel
take_group_member t g u = find (is_member g u) t.members

unfoldable pub take_group_request : Tables → Str → Str → Option GroupRequestModel
take_group_request t g u = find (is_request g u) t.requests

-- The row of the group with the role of an owner.
unfoldable pub take_group_owner : Tables → Str → Option GroupMemberModel
take_group_owner t g = find (λ row. str_eq row.group_id g && row.role_level == 100) t.members

-- FindGroupMember with one group and some users.
unfoldable pub find_group_member : Tables → Str → List Str → List GroupMemberModel
find_group_member t g ids = keep (λ row. str_eq row.group_id g && contain ids row.user_id) t.members

unfoldable pub find_owners : Tables → Str → List GroupMemberModel
find_owners t g = keep (λ row. str_eq row.group_id g && row.role_level == 100) t.members

unfoldable pub delete_group_member : Tables → Str → List Str → Tables
delete_group_member t g ids = record t {
  members = keep (λ row. not (str_eq row.group_id g && contain ids row.user_id)) t.members;
}

-- Insertion of one row: the group and the user are the table's key.
unfoldable pub create_member : Tables → GroupMemberModel → Option Tables
create_member t row =
    if any (is_member row.group_id row.user_id) t.members
    then none
    else some (record t { members = t.members ++ row ∷ [] })

unfoldable pub update_role_level : Tables → Str → Str → ℕ → Tables
update_role_level t g u role = record t {
  members = change (is_member g u) (λ row. record row { role_level = role }) t.members;
}

-- CreateGroupRequest with one request: an old one of the user is replaced.
unfoldable pub create_group_request : Tables → GroupRequestModel → Tables
create_group_request t r = record t {
  requests = keep (λ row. not (is_request r.group_id r.user_id row)) t.requests ++ r ∷ [];
}

unfoldable pub update_handler : Tables → Str → Str → Str → ℤ → Tables
update_handler t g u text answer = record t {
  requests =
      change (is_request g u) (λ row. record row { handled_msg = text; handle_result = answer })
        t.requests;
}

unfoldable pub update_status : Tables → Str → ℕ → Tables
update_status t g status = record t {
  groups = change (is_group g) (λ row. record row { status = status }) t.groups;
}

-- DismissGroup of the database
unfoldable pub dismiss_rows : Tables → Str → Bool → Tables
unfolding update_status
dismiss_rows t g delete_member =
    let dismissed = update_status t g 2 in
    if delete_member
    then record dismissed { members = keep (λ row. not (str_eq row.group_id g)) t.members }
    else dismissed

unfoldable pub update_mute_end : Tables → Str → Str → ℕ → Tables
update_mute_end t g u time = record t {
  members = change (is_member g u) (λ row. record row { mute_end_time = time }) t.members;
}

-- HandlerGroupRequest: a failed insertion undoes the transaction.
unfoldable pub handler_group_request :
    Tables → Str → Str → Str → ℤ → Option GroupMemberModel → Tables × Option GroupError
handler_group_request t g u text answer none = (update_handler t g u text answer, none)
handler_group_request t g u text answer (some row) =
    let handled = update_handler t g u text answer in
    elim (create_member handled row) [ none ↦ (t, some duplicate_row) | some done ↦ (done, none) ]

-- Whether an update of the role counts as one row: the database counts the rows that it finds, or the ones
-- that it changes, as its connection is configured.
unfoldable pub affected : Bool → Tables → Str → Str → ℕ → Bool
unfolding take_group_member
affected found_rows t g u role = elim (take_group_member t g u) [
  | none ↦ false
  | some row ↦ found_rows || not (row.role_level == role)
]

-- TransferGroupOwner of the database: where not one row is affected the transaction is undone.
unfoldable pub transfer_rows : Bool → Tables → Str → Str → Str → ℕ → Option Tables
transfer_rows found_rows t g old new role =
    let moved = update_role_level t g old role in
    if affected found_rows t g old role && affected found_rows moved g new 100
    then some (update_role_level moved g new 100)
    else none

-- Several rows in one transaction: a row that cannot be inserted undoes all.
unfoldable pub create_members : Tables → List GroupMemberModel → Option Tables
create_members t [] = some t
create_members t (row ∷ rows) = elim (create_member t row) [
  | none ↦ none
  | some next ↦ create_members next rows
]

-- CreateGroup of the database, with one group and its members.
unfoldable pub create_groups : Tables → GroupModel → List GroupMemberModel → Option Tables
create_groups t group rows =
    if any (is_group group.group_id) t.groups
    then none
    else create_members (record t { groups = t.groups ++ group ∷ [] }) rows

-- CreateGroupRequest with several requests.
unfoldable pub create_group_requests : Tables → List GroupRequestModel → Tables
create_group_requests t [] = t
create_group_requests t (r ∷ rs) = create_group_requests (create_group_request t r) rs
