-- ===== src/Friend/Server/Faults.antt =====
-- Two requests that do other than they say: an import with an old friend, and an empty remark.
use mathlib.Core.Option
use k.Base.{
  any-append, ◌≡◌, ◌∙◌, refl, inl, inr, pos, Bool-cases, true, false, none, List, [], ◌∷◌, ◌++◌,
  Str, str_eq, str_eq_refl, any, find, change, contain, arith, Ensures, ends-Ensures,
  checked_at-Ensures, ensures_lem,
}
use k.Friend.Tables.{
  FriendModel, FriendTables, is_friend_row, insert_friends, create_friends, update_remark_rows,
}
use k.Friend.Database.{FriendContext, own_rows, befriend_rows, become_friends, update_remark}
use k.Friend.Server.{duplicate, check_admin, import_friends, set_friend_remark}
use k.Friend.Server.Relation.{relation_of, both, str_same}
use k.Friend.Server.Import.{Distincts, own_rows-any}

insert_friends_conflict :
    (x y : Str) (rows news : List FriendModel)
    → any (is_friend_row x y) rows ≡ true
    → any (is_friend_row x y) news ≡ true
    → insert_friends rows news ≡ none
unfolding insert_friends
insert_friends_conflict x y rows [] h k = cc
insert_friends_conflict x y rows (new ∷ news) h k = elim (Bool-cases (is_friend_row x y new)) [
  | inl e ↦ let (a, b) = both new x y e in rw (str_same _ x a, str_same _ y b, h) refl
  | inr e ↦
      let k' = rw e at k in
      let old = any-append (is_friend_row x y) rows (new ∷ []) in
      let ih = insert_friends_conflict x y (rows ++ new ∷ []) news (old ∙ ground arith) k' in
      ground arith
]

create_friends_conflict :
    (t : FriendTables) (x y : Str) (news : List FriendModel)
    → relation_of t x y ≡ true
    → any (is_friend_row x y) news ≡ true
    → create_friends t news ≡ none
unfolding create_friends
create_friends_conflict t x y [] h k = refl
create_friends_conflict t x y (new ∷ news) h k =
    rw (insert_friends_conflict x y t.friends (new ∷ news) h k, create_friends) refl

-- An import among whose users one is a friend of the owner already makes nobody a friend, and is
-- answered as a success, where a manager asks, the users are there, the owner is not among them and
-- none is named twice; `DistinctAny` is assumed to keep elements of its list, one for each key.
pub import_friends_skips :
    (c : FriendContext) (t : FriendTables) (owner u : Str) (ids : List Str)
    → Distincts c.distinct_any
    → contain c.managers c.op_user_id ≡ true
    → c.users_info (owner ∷ ids) ≡ none
    → contain ids owner ≡ false
    → duplicate ids ≡ false
    → contain ids u ≡ true
    → relation_of t owner u ≡ true
    → import_friends c t owner ids ≡ (t, none)
unfolding import_friends check_admin become_friends befriend_rows
import_friends_skips c t owner u ids d manager info self twice among old =
    let rows = own_rows-any c t owner owner u ids (pos 1) d in
    let clash : any (is_friend_row owner u) (own_rows c t owner ids (pos 1)) ≡ true =
      rows ∙ rw (str_eq_refl owner, among) refl in
    rw
      (
        manager,
        info,
        self,
        twice,
        create_friends_conflict t owner u (own_rows c t owner ids (pos 1)) old clash,
        import_friends,
        check_admin,
        become_friends,
        befriend_rows,
      )
      refl

cleared :
    (owner other : Str) (rows : List FriendModel)
    → find
        (is_friend_row owner other)
        (change (λ row. str_eq row.owner_user_id owner) (λ row. record row { remark = [] }) rows)
      ≡ Option.map
          (λ (row : FriendModel). record row { remark = [] })
          (find (is_friend_row owner other) rows)
cleared owner other [] = refl
cleared owner other (row ∷ rows) = elim (Bool-cases (is_friend_row owner other row)) [
  | inl e ↦ let (mine, his) = both row owner other e in rw (mine, mine, his) refl
  | inr e ↦ elim (Bool-cases (str_eq row.owner_user_id owner)) [
    | inl m ↦
        let f : str_eq row.friend_user_id other ≡ false = ground arith in
        rw (m, m, f) (cleared owner other rows)
    | inr m ↦ rw (m, m) (cleared owner other rows)
  ]
]

clears :
    (c : FriendContext) (t : FriendTables) (owner friend other : Str)
    → Ensures
        (λ after.
          find (is_friend_row owner other) after.friends
          ≡ Option.map
              (λ (row : FriendModel). record row { remark = [] })
              (find (is_friend_row owner other) t.friends))
        (set_friend_remark c t owner friend [])
unfolding set_friend_remark update_remark update_remark_rows
clears c t owner friend other =
    checked_at-Ensures _ t _ _
      (checked_at-Ensures _ t _ _ (ends-Ensures _ _ _ (cleared owner other t.friends)))

-- A successful SetFriendRemark with an empty remark takes the remark off every friend of the owner,
-- not of the one that it names.
pub set_friend_remark_clears :
    (c : FriendContext) (t : FriendTables) (owner friend other : Str)
    → (set_friend_remark c t owner friend []).1 ≡ none
    → find (is_friend_row owner other) (set_friend_remark c t owner friend []).0.friends
      ≡ Option.map
          (λ (row : FriendModel). record row { remark = [] })
          (find (is_friend_row owner other) t.friends)
set_friend_remark_clears c t owner friend other =
    ensures_lem
      (λ after.
        find (is_friend_row owner other) after.friends
        ≡ Option.map (λ (row : FriendModel). record row { remark = [] })
            (find (is_friend_row owner other) t.friends))
      (set_friend_remark c t owner friend []) (clears c t owner friend other)
