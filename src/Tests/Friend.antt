-- ===== src/Tests/Friend.antt =====
-- A user with an old friend, and another who has asked to become one.
use mathlib.Core.Option
use k.Base.{
  ◌≡◌, ◌≢◌, refl, ap, Bool, true, false, not, none, List, [], ◌∷◌, ℤ, pos, ℤ_dec, negsuc, Str,
  codes, str_eq, str_dec, keep, any, find, contain, arith,
}
use k.Friend.Tables.{
  FriendModel, FriendTables, is_friend_row, take_friend_request, create_friend_request,
  find_friend_user_ids, update_friend_request, create_friends, insert_friends, find_user_state,
  find_friends,
}
use k.Friend.Database.{
  FriendContext, check_in, add_friend_request, friend_row, agree_friend_request, agree_rows,
  missing_rows, add_missing, find_friends_with_error, update_remark,
}
use k.Friend.Server.{
  RespondFriendApplyReq, ApplyToAddFriendReq, apply_to_add_friend, respond, handle,
  respond_friend_apply, check_access_v3, import_friends, set_friend_remark, access, duplicate,
}
use k.Friend.Server.Relation.{relation_of, any-keep, str_same}
use k.Friend.Server.Import.{Distincts}
use k.Friend.Server.Refinement.{Follows, intended, handle-Follows}
use k.Friend.Server.Answers.{Agreed, friend_answered_once}
use k.Friend.Server.Progress.{friendship_follows}
use k.Friend.Server.Faults.{import_friends_skips, set_friend_remark_clears}

-- The first row of each key.
distinct_any : (FriendModel → Str) → List FriendModel → List FriendModel
distinct_any key [] = []
distinct_any key (row ∷ rows) =
    row ∷ keep (λ other. not (str_eq (key row) (key other))) (distinct_any key rows)

distinct_any-covers :
    (key : FriendModel → Str) (rows : List FriendModel) (a : Str)
    → any (λ row. str_eq (key row) a) (distinct_any key rows) ≡ any (λ row. str_eq (key row) a) rows
unfolding distinct_any
distinct_any-covers key [] a = refl
distinct_any-covers key (row ∷ rows) a =
    let kept =
      any-keep (λ row. str_eq (key row) a) (λ other. not (str_eq (key row) (key other)))
        (not (str_eq (key row) a)) (distinct_any key rows)
        (λ x h. ap (λ z. not (str_eq (key row) z)) (str_same (key x) a h)) in
    ground (arith, distinct_any-covers key rows a, kept)

keep_none :
    (p q : FriendModel → Bool) (rows : List FriendModel)
    → any p rows ≡ false
    → any p (keep q rows) ≡ false
keep_none p q [] h = refl
keep_none p q (row ∷ rows) h = ground (arith, keep_none p q rows)

distinct_any-within :
    (key : FriendModel → Str) (rows : List FriendModel) (p : FriendModel → Bool)
    → any p rows ≡ false
    → any p (distinct_any key rows) ≡ false
unfolding distinct_any
distinct_any-within key [] p h = refl
distinct_any-within key (row ∷ rows) p h =
    let others =
      keep_none p (λ other. not (str_eq (key row) (key other))) (distinct_any key rows) in
    ground (arith, distinct_any-within key rows p, others)

abbrev context : Str → FriendContext
context u = record {
  op_user_id = u;
  operation_id = codes "op";
  managers = codes "root" ∷ [];
  users_info = λ us. none;
  callback = λ from to text. none;
  del_friend_ids = λ us. none;
  del_friend = λ owner friend. none;
  del_black_ids = λ owner. none;
  distinct_any = distinct_any;
}

context-Distincts : (u : Str) → Distincts (context u).distinct_any
context-Distincts u = record { covers = distinct_any-covers; within = distinct_any-within }

abbrev tables : FriendTables
tables = record {
  friends =
      record (friend_row (codes "a") (codes "b") (pos 1) (codes "op")) { remark = codes "Bob" }
      ∷ [];
  requests =
      record {
        from_user_id = codes "n";
        to_user_id = codes "a";
        handle_result = pos 0;
        req_msg = codes "hello";
        handler_user_id = [];
        handle_msg = [];
        ex = [];
      }
      ∷ [];
  blacks = [];
}

abbrev answer : ℤ → RespondFriendApplyReq
answer result = record {
  from_user_id = codes "n";
  to_user_id = codes "a";
  handle_result = result;
  handle_msg = codes "ok";
}

handle-Follows_example :
    Follows tables
      (intended (respond (answer (pos 1))) (relation_of tables))
      (handle (context (codes "a")) tables (respond (answer (pos 1))))
handle-Follows_example =
    handle-Follows (context (codes "a")) tables (respond (answer (pos 1)))
      (context-Distincts (codes "a"))

agreement : (respond_friend_apply (context (codes "a")) tables (answer (pos 1))).1 ≡ none
unfolding respond_friend_apply check_access_v3 agree_friend_request agree_rows missing_rows
    add_missing create_friends insert_friends find_user_state take_friend_request
    update_friend_request str_dec ℤ_dec
agreement = refl

friend_answered_once_example :
    let after = (respond_friend_apply (context (codes "a")) tables (answer (pos 1))).0 in
    ((respond_friend_apply (context (codes "root")) after (answer (negsuc 0))).0 ≡ after)
    × ((respond_friend_apply (context (codes "root")) after (answer (negsuc 0))).1 ≢ none)
friend_answered_once_example =
    friend_answered_once (context (codes "a")) (context (codes "root")) tables (answer (pos 1))
      (answer (negsuc 0)) agreement refl refl

manager : contain (codes "root" ∷ []) (codes "root") ≡ true
unfolding str_dec
manager = refl

apart : contain (codes "b" ∷ codes "z" ∷ []) (codes "a") ≡ false
unfolding str_dec
apart = refl

once : duplicate (codes "b" ∷ codes "z" ∷ []) ≡ false
unfolding str_dec
once = refl

among : contain (codes "b" ∷ codes "z" ∷ []) (codes "b") ≡ true
unfolding str_dec
among = refl

old_friend : relation_of tables (codes "a") (codes "b") ≡ true
unfolding str_dec
old_friend = refl

import_friends_skips_example :
    import_friends (context (codes "root")) tables (codes "a") (codes "b" ∷ codes "z" ∷ [])
    ≡ (tables, none)
import_friends_skips_example =
    import_friends_skips (context (codes "root")) tables (codes "a") (codes "b")
      (codes "b" ∷ codes "z" ∷ []) (context-Distincts (codes "root")) manager refl apart once among
      old_friend

abbrev two_friends : FriendTables
two_friends = record tables {
  friends =
      record (friend_row (codes "a") (codes "z") (pos 1) (codes "op")) { remark = codes "Zoe" }
      ∷ tables.friends;
}

remarked : (set_friend_remark (context (codes "a")) two_friends (codes "a") (codes "b") []).1 ≡ none
unfolding set_friend_remark access check_access_v3 find_friends_with_error find_friends
    update_remark str_dec
remarked = refl

set_friend_remark_clears_example :
    find
      (is_friend_row (codes "a") (codes "z"))
      (set_friend_remark (context (codes "a")) two_friends (codes "a") (codes "b") []).0.friends
    ≡ Option.map
        (λ (row : FriendModel). record row { remark = [] })
        (find (is_friend_row (codes "a") (codes "z")) two_friends.friends)
set_friend_remark_clears_example =
    set_friend_remark_clears (context (codes "a")) two_friends (codes "a") (codes "b") (codes "z")
      remarked

abbrev application : ApplyToAddFriendReq
application = record {
  from_user_id = codes "z";
  to_user_id = codes "a";
  req_msg = codes "hello";
  ex = [];
}

asked : (apply_to_add_friend (context (codes "z")) tables application).1 ≡ none
unfolding apply_to_add_friend check_access_v3 check_in find_friend_user_ids add_friend_request
    take_friend_request create_friend_request str_dec
asked = refl

allowed : check_access_v3 (context (codes "a")) (codes "a") ≡ none
unfolding check_access_v3 str_dec
allowed = refl

abbrev yes_to_z : RespondFriendApplyReq
yes_to_z = record (answer (pos 1)) { from_user_id = codes "z" }

friendship_follows_example :
    let after = (apply_to_add_friend (context (codes "z")) tables application).0 in
    ((respond_friend_apply (context (codes "a")) after yes_to_z).1 ≡ none)
    × Agreed (codes "z") (codes "a") (respond_friend_apply (context (codes "a")) after yes_to_z).0
friendship_follows_example =
    friendship_follows (context (codes "z")) (context (codes "a")) tables application yes_to_z asked
      refl refl refl allowed refl
