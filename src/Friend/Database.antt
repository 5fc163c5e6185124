-- ===== src/Friend/Database.antt =====
-- pkg/common/db/controller/friend.go: the transactions on the tables of friends and of requests.
-- The caches in front of them are left out, but their clearing can fail.
use k.Base.{
  ℕ, ℤ, pos, negsuc, ◌==◌, Bool, if◌then◌else◌, Option, none, some, List, [], ◌∷◌, ◌++◌, map,
  length, Str, any, contain, checked_at, taken_at,
}
use k.Friend.Tables.{
  FriendModel, FriendRequestModel, FriendTables, is_friend_row, find_friends, find_reversal_friends,
  find_user_state, find_friend_user_ids, create_friends, delete_friends, update_remark_rows,
  take_friend_request, create_friend_request, reset_friend_request, is_zero, update_friend_request,
}

-- `outside` is an error of another service, by its code.
pub data FriendError : Type 0 where
  args record_not_found no_permission can_not_add_yourself relationship_already : FriendError
  duplicate_row : FriendError
  outside : ℕ → FriendError

-- The caller of a request, the configuration, and the services that the handlers ask. `callback`
-- is what is left of the callback's error where it says to go on; `distinct_any` is the function
-- of the tools' library.
pub record FriendContext : Type 0 where
  pub op_user_id : Str
  pub operation_id : Str
  pub managers : List Str
  pub users_info : List Str → Option FriendError
  pub callback : Str → Str → Str → Option FriendError
  pub del_friend_ids : List Str → Option FriendError
  pub del_friend : Str → Str → Option FriendError
  pub del_black_ids : Str → Option FriendError
  pub distinct_any : (FriendModel → Str) → List FriendModel → List FriendModel

abbrev pub FriendOutcome : Type 0
FriendOutcome = FriendTables × Option FriendError

-- CheckIn: whether v is among the friends of u, and u among those of v.
unfoldable pub check_in : FriendTables → Str → Str → Bool × Bool
check_in t u v = (contain (find_friend_user_ids t u) v, contain (find_friend_user_ids t v) u)

unfoldable pub add_friend_request : FriendTables → Str → Str → Str → Str → FriendOutcome
add_friend_request t from to req_msg ex = elim (take_friend_request t from to) [
  | some old ↦ (reset_friend_request t from to req_msg ex, none)
  | none ↦
      elim (create_friend_request t (record {
        from_user_id = from;
        to_user_id = to;
        handle_result = pos 0;
        req_msg = req_msg;
        handler_user_id = [];
        handle_msg = [];
        ex = ex;
      })) [ none ↦ (t, some duplicate_row) | some next ↦ (next, none) ]
]

abbrev pub friend_row : Str → Str → ℤ → Str → FriendModel
friend_row owner friend source op = record {
  owner_user_id = owner;
  friend_user_id = friend;
  remark = [];
  add_source = source;
  operator_user_id = op;
  ex = [];
}

-- The rows that BecomeFriends inserts for the owner, and for the others.
unfoldable pub own_rows : FriendContext → FriendTables → Str → List Str → ℤ → List FriendModel
own_rows c t owner ids source =
    c.distinct_any (λ row. row.friend_user_id)
      (find_friends t owner ids ++ map (λ u. friend_row owner u source c.operation_id) ids)

unfoldable pub reversal_rows : FriendContext → FriendTables → Str → List Str → ℤ → List FriendModel
reversal_rows c t owner ids source =
    c.distinct_any (λ row. row.owner_user_id)
      (find_reversal_friends t owner ids ++ map (λ u. friend_row u owner source c.operation_id) ids)

-- The transaction of BecomeFriends.
unfoldable pub befriend_rows :
    FriendContext → FriendTables → Str → List Str → ℤ → Option FriendTables
befriend_rows c t owner ids source = elim (create_friends t (own_rows c t owner ids source)) [
  | none ↦ none
  | some next ↦ create_friends next (reversal_rows c next owner ids source)
]

-- BecomeFriends: a transaction that fails is answered by no error.
unfoldable pub become_friends : FriendContext → FriendTables → Str → List Str → ℤ → FriendOutcome
become_friends c t owner ids source = elim (befriend_rows c t owner ids source) [
  | none ↦ (t, none)
  | some next ↦ (next, c.del_friend_ids (ids ++ owner ∷ []))
]

unfoldable pub refuse_friend_request : FriendTables → FriendRequestModel → FriendOutcome
refuse_friend_request t r =
    taken_at t record_not_found (take_friend_request t r.from_user_id r.to_user_id) (λ old.
      if is_zero old.handle_result
      then (update_friend_request t (record r { handle_result = negsuc 0 }), none)
      else (t, some args))

-- The request, and one of the other to the first that has no answer yet, are agreed.
unfoldable pub agree_rows : FriendContext → FriendTables → FriendRequestModel → FriendTables
agree_rows c t r =
    let agreed =
      update_friend_request t
        (record r { handler_user_id = c.op_user_id; handle_result = pos 1 }) in
    elim (take_friend_request agreed r.to_user_id r.from_user_id) [
      | none ↦ agreed
      | some back ↦
          if is_zero back.handle_result
          then update_friend_request agreed
              (record back { handler_user_id = c.op_user_id; handle_result = pos 1 })
          else agreed
    ]

-- The rows that are missing between the two.
unfoldable pub missing_rows : FriendTables → Str → Str → List FriendModel
missing_rows t from to =
    let state = find_user_state t from to in
    (if any (is_friend_row to from) state then [] else friend_row to from (pos 2) from ∷ [])
    ++ (if any (is_friend_row from to) state then [] else friend_row from to (pos 2) from ∷ [])

-- `if len(adds) > 0 { … Create(ctx, adds) … }`
unfoldable pub add_missing : FriendTables → List FriendModel → Option FriendTables
add_missing t [] = some t
add_missing t (row ∷ rows) = create_friends t (row ∷ rows)

-- AgreeFriendRequest: any error undoes the transaction, that of the cache too.
unfoldable pub agree_friend_request :
    FriendContext → FriendTables → FriendRequestModel → FriendOutcome
agree_friend_request c t r =
    taken_at t record_not_found (take_friend_request t r.from_user_id r.to_user_id) (λ old.
      if is_zero old.handle_result
      then (let agreed = agree_rows c t r in
          taken_at t duplicate_row
            (add_missing agreed (missing_rows agreed r.from_user_id r.to_user_id))
            (λ next.
              checked_at t (c.del_friend_ids (r.to_user_id ∷ r.from_user_id ∷ [])) (next, none)))
      else (t, some args))

unfoldable pub delete : FriendContext → FriendTables → Str → List Str → FriendOutcome
delete c t owner ids = (delete_friends t owner ids, c.del_friend_ids (ids ++ owner ∷ []))

unfoldable pub update_remark : FriendContext → FriendTables → Str → Str → Str → FriendOutcome
update_remark c t owner friend remark =
    (update_remark_rows t owner friend remark, c.del_friend owner friend)

-- FindFriendsWithError
unfoldable pub find_friends_with_error : FriendTables → Str → List Str → Option FriendError
find_friends_with_error t owner ids =
    if length (find_friends t owner ids) == length ids then none else some record_not_found
