-- ===== src/Friend/Server/Progress.antt =====
-- From a request to a friendship: what two calls in turn come to.
use k.Base.{
  any-append, ◌≡◌, ◌∙◌, refl, subst, inl, inr, pos, Bool, Bool-cases, Option-cases, true, false,
  none, some, some_eq, List, [], ◌∷◌, ◌++◌, Str, str_eq, str_eq_refl, any, find, arith,
  find-change_new, Ensures, ends-Ensures, error-Ensures, checked_at-Ensures, if-Ensures,
  else-Ensures, ensures_lem, ◌&&◌,
}
use k.Friend.Tables.{
  FriendModel, FriendRequestModel, FriendTables, is_friend_row, is_request_row, take_friend_request,
  is_zero, insert_friends, create_friends, reset_friend_request, create_friend_request,
}
use k.Friend.Database.{
  relationship_already, check_in, FriendContext, FriendOutcome, add_friend_request, agree_rows,
  missing_rows, add_missing, agree_friend_request, friend_row,
}
use k.Friend.Server.{
  ApplyToAddFriendReq, RespondFriendApplyReq, request_of, check_access_v3, apply_to_add_friend,
  respond_friend_apply, answer_is,
}
use k.Friend.Server.Relation.{relation_of}
use k.Friend.Server.Refinement.{find_user_state-any}
use k.Friend.Server.Answers.{Agreed, respond_friend_apply-Agreed}

-- A request without an answer.
unfoldable Pending : Str → Str → FriendTables → Type 0
Pending from to t =
    (r : FriendRequestModel) × (take_friend_request t from to ≡ some r)
    × (is_zero r.handle_result ≡ true)

find-append_none {ℓ} :
    {A : Type ℓ} (p : A → Bool) (xs : List A) (x : A)
    → find p xs ≡ none
    → p x ≡ true
    → find p (xs ++ x ∷ []) ≡ some x
find-append_none p [] x h k = rw k refl
find-append_none p (y ∷ ys) x h k = elim (Bool-cases (p y)) [
  | inl e ↦ let h' = rw e at h in cc
  | inr e ↦ let h' = rw e at h in rw e (find-append_none p ys x h' k)
]

zero_is_zero : is_zero (pos 0) ≡ true
zero_is_zero = ground arith

create-Pending :
    (t next : FriendTables) (r : FriendRequestModel)
    → take_friend_request t r.from_user_id r.to_user_id ≡ none
    → is_zero r.handle_result ≡ true
    → create_friend_request t r ≡ some next
    → Pending r.from_user_id r.to_user_id next
unfolding Pending create_friend_request take_friend_request
create-Pending t next r h z e =
    let same = str_eq_refl r.from_user_id in
    let same' = str_eq_refl r.to_user_id in
    let there =
      find-append_none (is_request_row r.from_user_id r.to_user_id) t.requests r h (ground arith) in
    elim (Bool-cases (any (is_request_row r.from_user_id r.to_user_id) t.requests)) [
      | inl a ↦ let e' = rw (a, create_friend_request) at e in cc
      | inr a ↦
          let e' = rw (a, create_friend_request) at e in
          subst (Pending r.from_user_id r.to_user_id) (some_eq e') (r, there, z)
    ]

reset-Pending :
    (t : FriendTables) (old : FriendRequestModel) (from to text ex : Str)
    → take_friend_request t from to ≡ some old
    → Pending from to (reset_friend_request t from to text ex)
unfolding Pending reset_friend_request take_friend_request
reset-Pending t old from to text ex h =
    find-change_new (is_request_row from to) (λ x. is_zero x.handle_result) _ t.requests (λ x. refl)
      (λ x. zero_is_zero) h

insert_one :
    (rows : List FriendModel) (row : FriendModel)
    → any (is_friend_row row.owner_user_id row.friend_user_id) rows ≡ false
    → insert_friends rows (row ∷ []) ≡ some (rows ++ row ∷ [])
unfolding insert_friends
insert_one rows row h = rw h refl

insert_two :
    (rows : List FriendModel) (row other : FriendModel)
    → any (is_friend_row row.owner_user_id row.friend_user_id) rows ≡ false
    → any (is_friend_row other.owner_user_id other.friend_user_id) (rows ++ row ∷ []) ≡ false
    → insert_friends rows (row ∷ other ∷ []) ≡ some ((rows ++ row ∷ []) ++ other ∷ [])
unfolding insert_friends
insert_two rows row other h k = rw (h, k) refl

create_some :
    (t : FriendTables) (row : FriendModel) (news rows : List FriendModel)
    → insert_friends t.friends (row ∷ news) ≡ some rows
    → (next : FriendTables) × (create_friends t (row ∷ news) ≡ some next)
unfolding create_friends
create_some t row news rows h = rw (h, create_friends) (record t { friends = rows }, refl)

-- What is missing between two users can be inserted.
missing_added :
    (t : FriendTables) (from to : Str)
    → str_eq to from ≡ false
    → (next : FriendTables) × (add_missing t (missing_rows t from to) ≡ some next)
unfolding missing_rows add_missing
missing_added t from to n =
    let one = find_user_state-any t from to to from (λ row h. ground arith) in
    let two = find_user_state-any t from to from to (λ row h. ground arith) in
    let mine = friend_row to from (pos 2) from in
    let his = friend_row from to (pos 2) from in
    elim (Bool-cases (relation_of t to from)) [
      | inl a ↦ elim (Bool-cases (relation_of t from to)) [
        | inl b ↦ rw (one ∙ a, two ∙ b, missing_rows) (t, refl)
        | inr b ↦
            rw (one ∙ a, two ∙ b, missing_rows)
              (create_some t his [] _ (insert_one t.friends his b))
      ]
      | inr a ↦ elim (Bool-cases (relation_of t from to)) [
        | inl b ↦
            rw (one ∙ a, two ∙ b, missing_rows)
              (create_some t mine [] _ (insert_one t.friends mine a))
        | inr b ↦
            rw (one ∙ a, two ∙ b, missing_rows)
              (create_some t mine (his ∷ []) _ (
                insert_two t.friends mine his a
                  (any-append (is_friend_row from to) t.friends (mine ∷ []) ∙ rw (b, n) refl)))
      ]
    ]

-- A request without an answer between two users can be agreed, if the caches can be cleared.
agree_asked :
    (c : FriendContext) (t : FriendTables) (r : FriendRequestModel)
    → str_eq r.to_user_id r.from_user_id ≡ false
    → c.del_friend_ids (r.to_user_id ∷ r.from_user_id ∷ []) ≡ none
    → Pending r.from_user_id r.to_user_id t
    → (agree_friend_request c t r).1 ≡ none
unfolding agree_friend_request Pending
agree_asked c t r n cleared (old, e, z) =
    let (next, h) = missing_added (agree_rows c t r) r.from_user_id r.to_user_id n in
    rw (e, z, h, cleared, agree_friend_request) refl

add_friend_request-Pending :
    (t : FriendTables) (from to text ex : Str)
    → Ensures (Pending from to) (add_friend_request t from to text ex)
unfolding add_friend_request
add_friend_request-Pending t from to text ex = elim (Option-cases (take_friend_request t from to)) [
  | inr (old, e) ↦
      rw (e, add_friend_request) (ends-Ensures _ _ _ (reset-Pending t old from to text ex e))
  | inl e ↦
      let new : FriendRequestModel = record {
        from_user_id = from;
        to_user_id = to;
        handle_result = pos 0;
        req_msg = text;
        handler_user_id = [];
        handle_msg = [];
        ex = ex;
      } in
      elim (Option-cases (create_friend_request t new)) [
        | inl f ↦ rw (e, f, add_friend_request) (error-Ensures _ t _)
        | inr (next, f) ↦
            rw (e, f, add_friend_request)
              (ends-Ensures _ next none (create-Pending t next new e zero_is_zero f))
      ]
]

both-Ensures :
    (P : FriendTables → Type 0) (b : Bool) (out : FriendOutcome)
    → b ≡ false
    → Ensures P out
    → Ensures (λ t. (b ≡ false) × P t) out
unfolding Ensures
both-Ensures P b out n h k = (n, h k)

apply-Pending :
    (c : FriendContext) (t : FriendTables) (req : ApplyToAddFriendReq)
    → Ensures
        (λ after.
          (str_eq req.to_user_id req.from_user_id ≡ false)
          × Pending req.from_user_id req.to_user_id after)
        (apply_to_add_friend c t req)
unfolding apply_to_add_friend
apply-Pending c t req =
    let from = req.from_user_id in
    let to = req.to_user_id in
    let known = check_in t from to in
    checked_at-Ensures _ t _ _ (
      else-Ensures _ (str_eq to from) _ _ (error-Ensures _ t _) (λ e.
        checked_at-Ensures _ t (c.callback from to req.req_msg) _ (
          checked_at-Ensures _ t (c.users_info (to ∷ from ∷ [])) _ (
            if-Ensures _ (known.0 && known.1) _ _ (error-Ensures _ t relationship_already)
              (both-Ensures _ _ _ e (add_friend_request-Pending t from to req.req_msg req.ex))))))

-- A user whom another has asked with success can make the two friends of each other: the agreement
-- is answered without an error, if the one asked, or a manager, gives it and the caches can be
-- cleared.
pub friendship_follows :
    (c d : FriendContext) (t : FriendTables) (req : ApplyToAddFriendReq)
    (answer : RespondFriendApplyReq)
    → (apply_to_add_friend c t req).1 ≡ none
    → answer.from_user_id ≡ req.from_user_id
    → answer.to_user_id ≡ req.to_user_id
    → answer.handle_result ≡ pos 1
    → check_access_v3 d answer.to_user_id ≡ none
    → d.del_friend_ids (answer.to_user_id ∷ answer.from_user_id ∷ []) ≡ none
    → let after = (apply_to_add_friend c t req).0 in
      ((respond_friend_apply d after answer).1 ≡ none)
      × Agreed answer.from_user_id answer.to_user_id (respond_friend_apply d after answer).0
unfolding respond_friend_apply
friendship_follows c d t req answer h from to one access cleared =
    let after = (apply_to_add_friend c t req).0 in
    let (apart, asked) = ensures_lem _ (apply_to_add_friend c t req) (apply-Pending c t req) h in
    let r = request_of answer in
    let test : answer_is answer.handle_result (pos 1) ≡ true = rw one ground arith in
    let done = agree_asked d after r (rw (from, to) apart) cleared (rw (from, to) asked) in
    let ends : (respond_friend_apply d after answer).1 ≡ none =
      rw (access, test, respond_friend_apply) done in
    (ends, respond_friend_apply-Agreed d after answer one ends)
