-- ===== src/Friend/Server/Answers.antt =====
-- RespondFriendApply: what an answer leaves, and that there is only one.
use k.Base.{
  ◌≡◌, ◌≢◌, refl, subst, inl, inr, pos, negsuc, Bool-cases, Option-cases, true, false, not, none,
  some, some_eq, List, [], ◌∷◌, Str, str_eq_refl, arith, find-change_kept, find-change_new, Ensures,
  ends-Ensures, error-Ensures, checked_at-Ensures, taken_at-Ensures, if-Ensures, ensures_lem,
}
use k.Friend.Tables.{
  FriendModel, FriendRequestModel, FriendTables, is_request_row, take_friend_request,
  update_friend_request, is_zero,
}
use k.Friend.Database.{
  FriendContext, FriendOutcome, args, refuse_friend_request, agree_rows, missing_rows, add_missing,
  agree_friend_request,
}
use k.Friend.Server.{
  RespondFriendApplyReq, request_of, answer_is, check_access_v3, respond_friend_apply,
}
use k.Friend.Server.Relation.{relation_of, create_friends-some}
use k.Friend.Server.Refinement.{agreed-relation}

-- A request that has an answer.
unfoldable pub Answered : Str → Str → FriendTables → Type 0
Answered from to t =
    (r : FriendRequestModel) × (take_friend_request t from to ≡ some r)
    × (not (is_zero r.handle_result) ≡ true)

update-new :
    (t : FriendTables) (r old : FriendRequestModel)
    → is_zero r.handle_result ≡ false
    → take_friend_request t r.from_user_id r.to_user_id ≡ some old
    → Answered r.from_user_id r.to_user_id (update_friend_request t r)
unfolding Answered take_friend_request update_friend_request
update-new t r old n h =
    find-change_new (is_request_row r.from_user_id r.to_user_id)
      (λ x. not (is_zero x.handle_result)) _ t.requests (λ x. refl) (λ x. rw n (rw n refl)) h

update-kept :
    (t : FriendTables) (r : FriendRequestModel) (from to : Str)
    → is_zero r.handle_result ≡ false
    → Answered from to t
    → Answered from to (update_friend_request t r)
unfolding Answered take_friend_request update_friend_request
update-kept t r from to n (old, h, k) =
    find-change_kept (is_request_row from to) (is_request_row r.from_user_id r.to_user_id)
      (λ x. not (is_zero x.handle_result)) _ t.requests (λ x. refl) (λ x e. rw n (rw n refl)) h k

one_is_answer : is_zero (pos 1) ≡ false
one_is_answer = ground arith

refusal_is_answer : is_zero (negsuc 0) ≡ false
refusal_is_answer = ground arith

agree_rows-Answered :
    (c : FriendContext) (t : FriendTables) (r old : FriendRequestModel)
    → take_friend_request t r.from_user_id r.to_user_id ≡ some old
    → Answered r.from_user_id r.to_user_id (agree_rows c t r)
unfolding agree_rows
agree_rows-Answered c t r old h =
    let answer = record r { handler_user_id = c.op_user_id; handle_result = pos 1 } in
    let agreed = update_friend_request t answer in
    let done = update-new t answer old one_is_answer h in
    elim (Option-cases (take_friend_request agreed r.to_user_id r.from_user_id)) [
      | inl e ↦ rw (e, agree_rows) done
      | inr (back, e) ↦ elim (Bool-cases (is_zero back.handle_result)) [
        | inl z ↦
            rw (e, z, agree_rows)
              (update-kept agreed _ r.from_user_id r.to_user_id one_is_answer done)
        | inr z ↦ rw (e, z, agree_rows) done
      ]
    ]

add_missing-Answered :
    (t next : FriendTables) (rows : List FriendModel) (from to : Str)
    → add_missing t rows ≡ some next
    → Answered from to t
    → Answered from to next
unfolding add_missing Answered take_friend_request
add_missing-Answered t next [] from to h a = subst (Answered from to) (some_eq h) a
add_missing-Answered t next (row ∷ rows) from to h a =
    let (all, e, same) = create_friends-some t next (row ∷ rows) h in
    subst (Answered from to) same a

-- What an agreement leaves.
abbrev pub Agreed : Str → Str → FriendTables → Type 0
Agreed from to t =
    (relation_of t from to ≡ true) × (relation_of t to from ≡ true) × Answered from to t

next-Agreed :
    (c : FriendContext) (t next : FriendTables) (r old : FriendRequestModel)
    → take_friend_request t r.from_user_id r.to_user_id ≡ some old
    → add_missing (agree_rows c t r) (missing_rows (agree_rows c t r) r.from_user_id r.to_user_id)
      ≡ some next
    → Agreed r.from_user_id r.to_user_id next
next-Agreed c t next r old h k =
    let there = agreed-relation c t next r r.from_user_id r.to_user_id k in
    let back = agreed-relation c t next r r.to_user_id r.from_user_id k in
    let same = str_eq_refl r.from_user_id in
    let same' = str_eq_refl r.to_user_id in
    (
      ground arith,
      ground arith,
      add_missing-Answered (agree_rows c t r) next _ r.from_user_id r.to_user_id k
          (agree_rows-Answered c t r old h),
    )

agree-Agreed :
    (c : FriendContext) (t : FriendTables) (r : FriendRequestModel)
    → Ensures (Agreed r.from_user_id r.to_user_id) (agree_friend_request c t r)
unfolding agree_friend_request
agree-Agreed c t r = taken_at-Ensures _ t _ _ _ (λ old e.
    if-Ensures _ (is_zero old.handle_result) _ _
      (taken_at-Ensures _ t _ _ _ (λ next k.
        checked_at-Ensures _ t _ _ (ends-Ensures _ next none (next-Agreed c t next r old e k))))
      (error-Ensures _ t _))

refuse-Answered :
    (t : FriendTables) (r : FriendRequestModel)
    → Ensures (Answered r.from_user_id r.to_user_id) (refuse_friend_request t r)
unfolding refuse_friend_request
refuse-Answered t r = taken_at-Ensures _ t _ _ _ (λ old e.
    if-Ensures _ (is_zero old.handle_result) _ _
      (ends-Ensures _ _ none
        (update-new t (record r { handle_result = negsuc 0 }) old refusal_is_answer e))
      (error-Ensures _ t _))

weaken-Answered :
    (from to : Str) (out : FriendOutcome)
    → Ensures (Agreed from to) out
    → Ensures (Answered from to) out
unfolding Ensures
weaken-Answered from to out h n = (h n).2

answer-Agreed :
    (c : FriendContext) (t : FriendTables) (req : RespondFriendApplyReq)
    → req.handle_result ≡ pos 1
    → Ensures (Agreed req.from_user_id req.to_user_id) (respond_friend_apply c t req)
unfolding respond_friend_apply
answer-Agreed c t req one =
    let test : answer_is req.handle_result (pos 1) ≡ true = rw one ground arith in
    rw (test, respond_friend_apply) (checked_at-Ensures _ t _ _ (agree-Agreed c t (request_of req)))

respond-Answered :
    (c : FriendContext) (t : FriendTables) (req : RespondFriendApplyReq)
    → Ensures (Answered req.from_user_id req.to_user_id) (respond_friend_apply c t req)
unfolding respond_friend_apply
respond-Answered c t req = checked_at-Ensures _ t _ _ (
    if-Ensures _ (answer_is req.handle_result (pos 1)) _ _
      (weaken-Answered req.from_user_id req.to_user_id (agree_friend_request c t (request_of req))
        (agree-Agreed c t (request_of req)))
      (if-Ensures _ (answer_is req.handle_result (negsuc 0)) _ _
        (refuse-Answered t (request_of req)) (error-Ensures _ t args)))

-- A successful agreement makes the two friends of each other, and its request has an answer.
pub respond_friend_apply-Agreed :
    (c : FriendContext) (t : FriendTables) (req : RespondFriendApplyReq)
    → req.handle_result ≡ pos 1
    → (respond_friend_apply c t req).1 ≡ none
    → Agreed req.from_user_id req.to_user_id (respond_friend_apply c t req).0
respond_friend_apply-Agreed c t req one =
    ensures_lem _ (respond_friend_apply c t req) (answer-Agreed c t req one)

agree_twice :
    (c : FriendContext) (t : FriendTables) (r : FriendRequestModel)
    → Answered r.from_user_id r.to_user_id t
    → agree_friend_request c t r ≡ (t, some args)
unfolding agree_friend_request Answered
agree_twice c t r (old, e, n) = rw (e, agree_friend_request) ground arith

refuse_twice :
    (t : FriendTables) (r : FriendRequestModel)
    → Answered r.from_user_id r.to_user_id t
    → refuse_friend_request t r ≡ (t, some args)
unfolding refuse_friend_request Answered
refuse_twice t r (old, e, n) = rw (e, refuse_friend_request) ground arith

-- A request that has an answer gets no other one.
second_answer :
    (c : FriendContext) (t : FriendTables) (req : RespondFriendApplyReq)
    → Answered req.from_user_id req.to_user_id t
    → ((respond_friend_apply c t req).0 ≡ t) × ((respond_friend_apply c t req).1 ≢ none)
unfolding respond_friend_apply check_access_v3
second_answer c t req a =
    let one = agree_twice c t (request_of req) a in
    let two = refuse_twice t (request_of req) a in ground arith

-- A friend request that was answered with success, in whichever way, cannot be answered again by
-- anybody: the second answer changes nothing and gets an error.
pub friend_answered_once :
    (c other : FriendContext) (t : FriendTables) (req again : RespondFriendApplyReq)
    → (respond_friend_apply c t req).1 ≡ none
    → again.from_user_id ≡ req.from_user_id
    → again.to_user_id ≡ req.to_user_id
    → let after = (respond_friend_apply c t req).0 in
      ((respond_friend_apply other after again).0 ≡ after)
      × ((respond_friend_apply other after again).1 ≢ none)
friend_answered_once c other t req again h from to =
    second_answer other (respond_friend_apply c t req).0 again
      (rw (from, to) (ensures_lem _ (respond_friend_apply c t req) (respond-Answered c t req) h))
