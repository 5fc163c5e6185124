-- ===== src/Group/Joining.antt =====
-- internal/rpc/group/group.go: GroupApplicationResponse and JoinGroup.
use k.Base.{
  ℕ, ℤ, pos, ℤ_dec, negsuc, is_yes, ◌==◌, Bool, not, ◌||◌, if◌then◌else◌, Option, none, some, [],
  ◌∷◌, Str, inl, inr,
}
use k.Group.Tables.{
  Tables, GroupModel, GroupMemberModel, GroupRequestModel, args, dismissed_already,
  group_type_not_support, group_request_handled, duplicate_row, take_group, take_group_member,
  take_group_request, create_member, create_group_request, handler_group_request,
}
use k.Group.Calls.{Context, Outcome, refuse, checked, taken, found, check_group_admin}

-- A handled request, and the new member of one that is agreed to.
pub record GroupApplicationResponseReq : Type 0 where
  pub group_id : Str
  pub from_user_id : Str
  pub handled_msg : Str
  pub handle_result : ℤ

abbrev pub agree : ℤ
agree = pos 1

abbrev pub refusal : ℤ
refusal = negsuc 0

abbrev pub is_result : ℤ → ℤ → Bool
is_result a b = is_yes (ℤ_dec a b)

-- The row of an ordinary member who joins by a request.
abbrev pub new_member : Context → GroupRequestModel → Str → Str → GroupMemberModel
new_member c r g u = record {
  group_id = g;
  user_id = u;
  role_level = 20;
  join_source = r.join_source;
  inviter_user_id = r.inviter_user_id;
  operator_user_id = c.op_user_id;
  mute_end_time = 0;
}

-- From `HandlerGroupRequest` on.
unfoldable pub handle_request :
    Context → Tables → GroupApplicationResponseReq → Option GroupMemberModel → Outcome
handle_request c t req member =
    let (left, failed) =
      handler_group_request t req.group_id req.from_user_id req.handled_msg req.handle_result
        member in
    checked left failed (
      if is_result req.handle_result agree
      then checked left (c.first_conversation req.group_id (req.from_user_id ∷ [])) (left, none)
      else (left, none))

-- The callback may change the member before the row is written.
unfoldable pub admit_member :
    Context → Tables → GroupApplicationResponseReq → GroupRequestModel → Outcome
admit_member c t req r = elim (c.callback (new_member c r req.group_id req.from_user_id)) [
  | inl e ↦ (t, some e)
  | inr member ↦ handle_request c t req (some member)
]

unfoldable pub group_application_response : Context → Tables → GroupApplicationResponseReq → Outcome
group_application_response c t req =
    if not (is_result req.handle_result agree || is_result req.handle_result refusal)
    then refuse t args
    else checked t (check_group_admin c t req.group_id) (
        taken t (take_group t req.group_id) (λ group.
          taken t (take_group_request t req.group_id req.from_user_id) (λ r.
            if not (is_result r.handle_result (pos 0))
            then refuse t group_request_handled
            else checked t (c.user_info req.from_user_id) (
                found (take_group_member t req.group_id req.from_user_id)
                  (if is_result req.handle_result agree
                    then admit_member c t req r
                    else handle_request c t req none)
                  (λ old. handle_request c t req none)))))

pub record JoinGroupReq : Type 0 where
  pub group_id : Str
  pub req_message : Str
  pub join_source : ℕ
  pub inviter_user_id : Str

-- The row of a member who joins without a request.
abbrev direct_member : Context → JoinGroupReq → GroupModel → GroupMemberModel
direct_member c req group = record {
  group_id = group.group_id;
  user_id = req.inviter_user_id;
  role_level = 20;
  join_source = 0;
  inviter_user_id = req.inviter_user_id;
  operator_user_id = c.op_user_id;
  mute_end_time = 0;
}

-- A group that needs no verification takes the user at once.
unfoldable join_directly : Context → Tables → JoinGroupReq → GroupModel → Outcome
join_directly c t req group =
    if group.group_type == 1
    then refuse t group_type_not_support
    else elim (c.callback (direct_member c req group)) [
      | inl e ↦ (t, some e)
      | inr member ↦ elim (create_member t member) [
        | none ↦ (t, some duplicate_row)
        | some left ↦
            checked left (c.first_conversation req.group_id (req.inviter_user_id ∷ [])) (left, none)
      ]
    ]

-- The request that waits for an answer.
abbrev new_request : JoinGroupReq → GroupRequestModel
new_request req = record {
  user_id = req.inviter_user_id;
  group_id = req.group_id;
  handle_result = pos 0;
  req_msg = req.req_message;
  handled_msg = [];
  join_source = req.join_source;
  inviter_user_id = [];
}

unfoldable join_group : Context → Tables → JoinGroupReq → Outcome
join_group c t req = checked t (c.user_info req.inviter_user_id) (
    taken t (take_group t req.group_id) (λ group.
      if group.status == 2
      then refuse t dismissed_already
      else found (take_group_member t req.group_id req.inviter_user_id)
          (if group.need_verification == 2
            then join_directly c t req group
            else (create_group_request t (new_request req), none))
          (λ old. refuse t args)))
