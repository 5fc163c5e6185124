-- ===== src/Friend/Tables.antt =====
-- pkg/common/db/relation/friend_model.go, friend_request_model.go and black_model.go: the tables of
-- the friend service and the statements on them. Times of rows and failures of the connection are
-- left out; an insertion fails on a key that is there, and without rows.
use k.Base.{
  ◌&&◌, ◌||◌, ℤ, pos, ℤ_dec, is_yes, Bool, true, false, not, if◌then◌else◌, Option, none, some,
  List, [], ◌∷◌, ◌++◌, map, Str, str_eq, keep, any, find, change, contain,
}

pub record FriendModel : Type 0 where
  pub owner_user_id : Str
  pub friend_user_id : Str
  pub remark : Str
  pub add_source : ℤ
  pub operator_user_id : Str
  pub ex : Str

pub record FriendRequestModel : Type 0 where
  pub from_user_id : Str
  pub to_user_id : Str
  pub handle_result : ℤ
  pub req_msg : Str
  pub handler_user_id : Str
  pub handle_msg : Str
  pub ex : Str

pub record BlackModel : Type 0 where
  pub owner_user_id : Str
  pub block_user_id : Str
  pub operator_user_id : Str

pub record FriendTables : Type 0 where
  pub friends : List FriendModel
  pub requests : List FriendRequestModel
  pub blacks : List BlackModel

abbrev pub is_friend_row : Str → Str → FriendModel → Bool
is_friend_row owner friend row = str_eq row.owner_user_id owner && str_eq row.friend_user_id friend

abbrev pub is_request_row : Str → Str → FriendRequestModel → Bool
is_request_row from to row = str_eq row.from_user_id from && str_eq row.to_user_id to

abbrev pub is_black_row : Str → Str → BlackModel → Bool
is_black_row owner block row = str_eq row.owner_user_id owner && str_eq row.block_user_id block

-- FindFriends
unfoldable pub find_friends : FriendTables → Str → List Str → List FriendModel
find_friends t owner ids =
    keep (λ row. str_eq row.owner_user_id owner && contain ids row.friend_user_id) t.friends

-- FindReversalFriends
unfoldable pub find_reversal_friends : FriendTables → Str → List Str → List FriendModel
find_reversal_friends t friend ids =
    keep (λ row. str_eq row.friend_user_id friend && contain ids row.owner_user_id) t.friends

-- FindUserState
unfoldable pub find_user_state : FriendTables → Str → Str → List FriendModel
find_user_state t u v = keep (λ row. is_friend_row u v row || is_friend_row v u row) t.friends

-- FindFriendUserIDs
unfoldable pub find_friend_user_ids : FriendTables → Str → List Str
find_friend_user_ids t owner =
    map (λ row. row.friend_user_id) (keep (λ row. str_eq row.owner_user_id owner) t.friends)

unfoldable pub insert_friends : List FriendModel → List FriendModel → Option (List FriendModel)
insert_friends rows [] = some rows
insert_friends rows (new ∷ news) =
    let rest = insert_friends (rows ++ new ∷ []) news in
    if any (is_friend_row new.owner_user_id new.friend_user_id) rows then none else rest

-- Create: all rows or none.
unfoldable pub create_friends : FriendTables → List FriendModel → Option FriendTables
unfolding insert_friends
create_friends t [] = none
create_friends t (new ∷ news) = elim (insert_friends t.friends (new ∷ news)) [
  | none ↦ none
  | some rows ↦ some (record t { friends = rows })
]

-- Delete
unfoldable pub delete_friends : FriendTables → Str → List Str → FriendTables
delete_friends t owner ids = record t {
  friends =
      keep (λ row. not (str_eq row.owner_user_id owner && contain ids row.friend_user_id))
        t.friends;
}

abbrev pub is_empty : Str → Bool
is_empty [] = true
is_empty (c ∷ cs) = false

-- UpdateRemark: the statement for an empty remark has no condition on the friend.
unfoldable pub update_remark_rows : FriendTables → Str → Str → Str → FriendTables
update_remark_rows t owner friend remark = record t {
  friends =
      change
        (if is_empty remark
          then (λ row. str_eq row.owner_user_id owner)
          else is_friend_row owner friend)
        (λ row. record row { remark = remark }) t.friends;
}

unfoldable pub take_friend_request : FriendTables → Str → Str → Option FriendRequestModel
take_friend_request t from to = find (is_request_row from to) t.requests

-- Create with one row; its callers have looked for the key before.
unfoldable pub create_friend_request : FriendTables → FriendRequestModel → Option FriendTables
create_friend_request t r =
    if any (is_request_row r.from_user_id r.to_user_id) t.requests
    then none
    else some (record t { requests = t.requests ++ r ∷ [] })

-- UpdateByMap with the five columns of AddFriendRequest.
unfoldable pub reset_friend_request : FriendTables → Str → Str → Str → Str → FriendTables
reset_friend_request t from to req_msg ex = record t {
  requests =
      change (is_request_row from to)
        (λ row. record row { handle_result = pos 0; handle_msg = []; req_msg = req_msg; ex = ex })
        t.requests;
}

abbrev pub is_zero : ℤ → Bool
is_zero z = is_yes (ℤ_dec z (pos 0))

abbrev pub or_old : Str → Str → Str
or_old new old = if is_empty new then old else new

-- Update: the columns that are not zero in the argument.
unfoldable pub update_friend_request : FriendTables → FriendRequestModel → FriendTables
update_friend_request t r = record t {
  requests =
      change (is_request_row r.from_user_id r.to_user_id)
        (λ row. record row {
          handle_result = if is_zero r.handle_result then row.handle_result else r.handle_result;
          req_msg = or_old r.req_msg row.req_msg;
          handler_user_id = or_old r.handler_user_id row.handler_user_id;
          handle_msg = or_old r.handle_msg row.handle_msg;
          ex = or_old r.ex row.ex;
        })
        t.requests;
}

-- BlackGorm's Create, with one row.
unfoldable pub create_black : FriendTables → BlackModel → Option FriendTables
create_black t b =
    if any (is_black_row b.owner_user_id b.block_user_id) t.blacks
    then none
    else some (record t { blacks = t.blacks ++ b ∷ [] })

-- BlackGorm's Delete, with one row.
unfoldable pub delete_black : FriendTables → Str → Str → FriendTables
delete_black t owner block = record t {
  blacks = keep (λ row. not (is_black_row owner block row)) t.blacks;
}

-- FindBlackUserIDs
unfoldable pub find_black_user_ids : FriendTables → Str → List Str
find_black_user_ids t owner =
    map (λ row. row.block_user_id) (keep (λ row. str_eq row.owner_user_id owner) t.blacks)
