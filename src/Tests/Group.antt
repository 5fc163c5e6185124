-- ===== src/Tests/Group.antt =====
-- A group of four, and a fifth user who asks to join.
use k.Base.{
  ◌≡◌, ◌≢◌, refl, ap, inr, true, false, none, some, [], ◌∷◌, ℕ, ℤ, pos, Str, codes, str_eq, str_dec,
  arith, ℤ_dec, length,
}
use k.Group.Tables.{
  GroupModel, Tables, GroupMemberModel, take_group, take_group_member, take_group_request,
  find_group_member, find_owners, delete_group_member, handler_group_request, create_member,
  update_handler, transfer_rows, affected, update_role_level, contain,
}
use k.Group.Calls.{Context, is_app_manager_uid, check_group_admin}
use k.Group.Joining.{
  GroupApplicationResponseReq, agree, refusal, handle_request, admit_member,
  group_application_response,
}
use k.Group.Leaving.{kick_group_member, check_kicked, kick_right, quit_group, quit_from_group}
use k.Group.Roles.{transfer_group_owner, transfer_right}
use k.Group.Server.Rights.{Outranks, kick_group_member-Outranks}
use k.Group.Server.Transfer.{role_of, transfer_group_owner-Transferred}
use k.Group.Server.Requests.{answered_once}
use k.Group.Server.Quit.{quit_group-Quitted}

abbrev g : Str
g = codes "g"

abbrev member : Str → ℕ → GroupMemberModel
member u role = record {
  group_id = g;
  user_id = u;
  role_level = role;
  join_source = 2;
  inviter_user_id = [];
  operator_user_id = [];
  mute_end_time = 0;
}

abbrev tables : Tables
tables = record {
  groups = record { group_id = g; status = 0; group_type = 2; need_verification = 0 } ∷ [];
  members = member (codes "o") 100 ∷ member (codes "a") 60 ∷ member (codes "m") 20 ∷ [];
  requests =
      record {
        user_id = codes "n";
        group_id = g;
        handle_result = pos 0;
        req_msg = [];
        handled_msg = [];
        join_source = 3;
        inviter_user_id = [];
      }
      ∷ [];
}

abbrev caller : Str → Context
caller u = record {
  op_user_id = u;
  managers = codes "root" ∷ [];
  now = 1000;
  found_rows = false;
  fill = λ rows. none;
  user_info = λ v. none;
  callback = λ row. inr row;
  first_conversation = λ group ids. none;
  set_max_seq = λ group ids. none;
  super_delete = λ group ids. none;
  super_dismiss = λ group. none;
}

abbrev answer : ℤ → GroupApplicationResponseReq
answer result = record {
  group_id = g;
  from_user_id = codes "n";
  handled_msg = codes "ok";
  handle_result = result;
}

not_manager : is_app_manager_uid (caller (codes "a")) ≡ false
unfolding is_app_manager_uid str_dec
not_manager = refl

abbrev kicked : Tables
kicked = (kick_group_member (caller (codes "a")) tables g (codes "m" ∷ [])).0

one_kicked : length kicked.members ≡ 2
unfolding kick_group_member take_group find_group_member find_owners check_kicked kick_right
    delete_group_member is_app_manager_uid str_dec
one_kicked = refl

changed : kicked ≢ tables
changed e = omega (arith, ap (λ (t : Tables). length t.members) e, one_kicked)

target_found : take_group_member tables g (codes "m") ≡ some (member (codes "m") 20)
unfolding take_group_member str_dec
target_found = refl

named : contain (codes "m" ∷ []) (codes "m") ≡ true
unfolding str_dec
named = refl

kick_group_member-Outranks_example :
    (op : GroupMemberModel) × (take_group_member tables g (codes "a") ≡ some op)
    × Outranks op (member (codes "m") 20)
kick_group_member-Outranks_example =
    kick_group_member-Outranks (caller (codes "a")) tables g (codes "m" ∷ []) (codes "m")
      (member (codes "m") 20) not_manager changed named target_found

transferred : (transfer_group_owner (caller (codes "o")) tables g (codes "o") (codes "m")).1 ≡ none
unfolding transfer_group_owner take_group find_group_member transfer_right transfer_rows affected
    update_role_level take_group_member is_app_manager_uid str_dec
transferred = refl

others : (str_eq (codes "o") (codes "a") ≡ false) × (str_eq (codes "m") (codes "a") ≡ false)
unfolding str_dec
others = (refl, refl)

transfer_group_owner-Transferred_example :
    let left = (transfer_group_owner (caller (codes "o")) tables g (codes "o") (codes "m")).0 in
    (role_of left g (codes "m") ≡ some 100)
    × (role_of left g (codes "o") ≡ role_of tables g (codes "m"))
    × (role_of left g (codes "a") ≡ role_of tables g (codes "a"))
transfer_group_owner-Transferred_example =
    transfer_group_owner-Transferred (caller (codes "o")) tables g (codes "o") (codes "m")
      (codes "a") transferred others

agreed : (group_application_response (caller (codes "a")) tables (answer agree)).1 ≡ none
unfolding group_application_response check_group_admin take_group take_group_request
    take_group_member admit_member handle_request handler_group_request create_member update_handler
    is_app_manager_uid str_dec ℤ_dec
agreed = refl

answered_once_example :
    (group_application_response
      (caller (codes "o"))
      (group_application_response (caller (codes "a")) tables (answer agree)).0
      (answer refusal)).0
    ≡ (group_application_response (caller (codes "a")) tables (answer agree)).0
answered_once_example =
    answered_once (caller (codes "a")) (caller (codes "o")) tables (answer agree) (answer refusal)
      agreed (refl, refl)

gone : (quit_group (caller (codes "m")) tables g []).1 ≡ none
unfolding quit_group quit_from_group take_group take_group_member delete_group_member str_dec
gone = refl

abbrev ordinary_group : GroupModel
ordinary_group = record { group_id = g; status = 0; group_type = 2; need_verification = 0 }

group_found : take_group tables g ≡ some ordinary_group
unfolding take_group str_dec
group_found = refl

quit_group-Quitted_example :
    let left = (quit_group (caller (codes "m")) tables g []).0 in
    ((info : GroupMemberModel) × (take_group_member tables g (codes "m") ≡ some info)
      × (info.role_level ≢ 100))
    × (take_group_member left g (codes "m") ≡ none)
    × (take_group_member left g (codes "a") ≡ take_group_member tables g (codes "a"))
quit_group-Quitted_example =
    quit_group-Quitted (caller (codes "m")) tables g [] (codes "a") ordinary_group group_found refl
      gone others.1
