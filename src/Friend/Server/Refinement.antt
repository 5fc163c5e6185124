-- ===== src/Friend/Server/Refinement.antt =====
-- The service implements a relation: each request leaves the friendships as they are or changes them
-- as its kind says.
use k.Base.{
  ◌&&◌, ◌||◌, ◌≡◌, ◌∙◌, ◌⊎◌, refl, ap, sym, inl, inr, ℤ, pos, negsuc, Bool, Bool-cases,
  Option-cases, true, false, not, if◌then◌else◌, Option, none, some, some_eq, List, [], ◌∷◌, Str,
  str_eq, any, contain, arith, checked_at, taken_at,
}
use k.Friend.Tables.{
  FriendModel, BlackModel, FriendRequestModel, FriendTables, is_friend_row, delete_friends,
  update_remark_rows, find_user_state, create_friend_request, update_friend_request,
  reset_friend_request, create_black, delete_black,
}
use k.Friend.Database.{
  FriendContext, FriendOutcome, FriendError, args, befriend_rows, become_friends,
  add_friend_request, refuse_friend_request, agree_rows, missing_rows, add_missing,
  agree_friend_request, delete, update_remark,
}
use k.Friend.Server.{
  request_of, answer_is, FriendCommand, apply, import_all, respond, unfriend, remark, block,
  unblock, access, handle, apply_to_add_friend, import_friends, respond_friend_apply, delete_friend,
  set_friend_remark, add_black, remove_black,
}
use k.Friend.Server.Import.{Distincts, befriend_rows-relation}
use k.Friend.Server.Relation.{
  Relation, relation_of, str_same, any-keep, create_friends-relation, delete_friends-relation,
  update_remark_rows-relation,
}

-- All of `ids` and u are friends of each other.
abbrev pub befriend : Str → List Str → Relation → Relation
befriend u ids r x y = r x y || (str_eq u x && contain ids y) || (str_eq u y && contain ids x)

-- What a request does to the friendships if it does anything.
abbrev pub intended : FriendCommand → Relation → Relation
intended (apply req) r = r
intended (import_all owner ids) r = befriend owner ids r
intended (respond req) r =
    if answer_is req.handle_result (pos 1)
    then befriend req.from_user_id (req.to_user_id ∷ []) r
    else r
intended (unfriend owner friend) r = λ x y. r x y && not (str_eq x owner && contain (friend ∷ []) y)
intended (remark owner friend text) r = r
intended (block owner u) r = r
intended (unblock owner u) r = r

abbrev pub Same : Relation → Relation → Type 0
Same r s = (x y : Str) → r x y ≡ s x y

-- What a handler leaves: the friendships from before, or the relation r.
unfoldable pub Follows : FriendTables → Relation → FriendOutcome → Type 0
Follows t r out = Same (relation_of out.0) (relation_of t) ⊎ Same (relation_of out.0) r

same-Follows :
    (t next : FriendTables) (r : Relation) (e : Option FriendError)
    → next.friends ≡ t.friends
    → Follows t r (next, e)
unfolding Follows
same-Follows t next r e h = inl (λ x y. ap (any (is_friend_row x y)) h)

stay-Follows : (t : FriendTables) (r : Relation) (e : Option FriendError) → Follows t r (t, e)
stay-Follows t r e = same-Follows t t r e refl

new-Follows :
    (t next : FriendTables) (r : Relation) (e : Option FriendError)
    → Same (relation_of next) r
    → Follows t r (next, e)
unfolding Follows
new-Follows t next r e h = inr h

checked_at-Follows :
    (t : FriendTables) (r : Relation) (e : Option FriendError) (next : FriendOutcome)
    → Follows t r next
    → Follows t r (checked_at t e next)
checked_at-Follows t r none next h = h
checked_at-Follows t r (some e) next h = stay-Follows t r (some e)

taken_at-Follows {ℓ} :
    {A : Type ℓ} (t : FriendTables) (r : Relation) (e : FriendError) (o : Option A)
    (next : A → FriendOutcome)
    → ((a : A) → o ≡ some a → Follows t r (next a))
    → Follows t r (taken_at t e o next)
taken_at-Follows t r e none next h = stay-Follows t r (some e)
taken_at-Follows t r e (some a) next h = h a refl

if-Follows :
    (t : FriendTables) (r : Relation) (b : Bool) (x y : FriendOutcome)
    → Follows t r x
    → Follows t r y
    → Follows t r (if b then x else y)
if-Follows t r true x y h k = h
if-Follows t r false x y h k = k

ruleset follows = (checked_at-Follows, taken_at-Follows, if-Follows, stay-Follows)

become_friends-Follows :
    (c : FriendContext) (t : FriendTables) (owner : Str) (ids : List Str) (source : ℤ)
    → Distincts c.distinct_any
    → Follows t (befriend owner ids (relation_of t)) (become_friends c t owner ids source)
unfolding become_friends
become_friends-Follows c t owner ids source d =
    elim (Option-cases (befriend_rows c t owner ids source)) [
      | inl e ↦ rw (e, become_friends) (stay-Follows t _ none)
      | inr (next, e) ↦
          rw (e, become_friends)
            (new-Follows t next _ _
              (λ x y. befriend_rows-relation c t next owner x y ids source d e))
    ]

-- AgreeFriendRequest inserts what is missing between the two.
pub agree_rows-relation :
    (c : FriendContext) (t : FriendTables) (r : FriendRequestModel)
    → (agree_rows c t r).friends ≡ t.friends
unfolding agree_rows update_friend_request
agree_rows-relation c t r = ground arith

both_equal : (a b : Bool) → (a && (b || false)) ≡ true → (a ≡ true) × (b ≡ true)
both_equal a b h = ground arith

pub find_user_state-any :
    (t : FriendTables) (u v x y : Str)
    → ((row : FriendModel)
        → is_friend_row x y row ≡ true
        → (is_friend_row u v row || is_friend_row v u row) ≡ true)
    → any (is_friend_row x y) (find_user_state t u v) ≡ relation_of t x y
unfolding find_user_state
find_user_state-any t u v x y h =
    let e = any-keep (is_friend_row x y) _ true t.friends h in ground (arith, e)

same_pair :
    (t : FriendTables) (a b x y : Str)
    → (str_eq a x && (str_eq b y || false)) ≡ true
    → relation_of t x y ≡ relation_of t a b
same_pair t a b x y h =
    let (e, f) = both_equal (str_eq a x) (str_eq b y) h in
    ap (λ u. relation_of t u y) (sym (str_same a x e))
    ∙ ap (λ u. relation_of t a u) (sym (str_same b y f))

missing_rows-any :
    (t : FriendTables) (from to x y : Str)
    → (relation_of t x y || any (is_friend_row x y) (missing_rows t from to))
      ≡ befriend from (to ∷ []) (relation_of t) x y
unfolding missing_rows
missing_rows-any t from to x y = ground (
  arith,
  find_user_state-any t from to to from (λ row h. ground arith),
  find_user_state-any t from to from to (λ row h. ground arith),
  same_pair t to from x y,
  same_pair t from to x y,
)

add_missing-relation :
    (t next : FriendTables) (rows : List FriendModel) (x y : Str)
    → add_missing t rows ≡ some next
    → relation_of next x y ≡ (relation_of t x y || any (is_friend_row x y) rows)
unfolding add_missing
add_missing-relation t next [] x y h =
    ap (λ (r : FriendTables). relation_of r x y) (sym (some_eq h)) ∙ ground arith
add_missing-relation t next (row ∷ rows) x y h = create_friends-relation t next (row ∷ rows) x y h

pub agreed-relation :
    (c : FriendContext) (t next : FriendTables) (r : FriendRequestModel) (x y : Str)
    → add_missing (agree_rows c t r) (missing_rows (agree_rows c t r) r.from_user_id r.to_user_id)
      ≡ some next
    → relation_of next x y ≡ befriend r.from_user_id (r.to_user_id ∷ []) (relation_of t) x y
agreed-relation c t next r x y h =
    add_missing-relation (agree_rows c t r) next _ x y h
    ∙ missing_rows-any (agree_rows c t r) r.from_user_id r.to_user_id x y
    ∙ ap
        (λ rows.
          any (is_friend_row x y) rows
          || (str_eq r.from_user_id x && contain (r.to_user_id ∷ []) y)
          || (str_eq r.from_user_id y && contain (r.to_user_id ∷ []) x))
        (agree_rows-relation c t r)

agree-Follows :
    (c : FriendContext) (t : FriendTables) (r : FriendRequestModel)
    → Follows t
        (befriend r.from_user_id (r.to_user_id ∷ []) (relation_of t))
        (agree_friend_request c t r)
unfolding agree_friend_request
agree-Follows c t r =
    let made =
      λ (next : FriendTables)
          (k : add_missing (agree_rows c t r)
              (missing_rows (agree_rows c t r) r.from_user_id r.to_user_id)
            ≡ some next).
        new-Follows t next _ none (λ x y. agreed-relation c t next r x y k) in
    search (follows, made) depth 12

refuse-Follows :
    (t : FriendTables) (r : FriendRequestModel) (to : Relation)
    → Follows t to (refuse_friend_request t r)
unfolding refuse_friend_request update_friend_request
refuse-Follows t r to =
    let refused =
      same-Follows t (update_friend_request t (record r { handle_result = negsuc 0 })) to none
        refl in
    search (follows, refused) depth 12

add_friend_request-Follows :
    (t : FriendTables) (from to text ex : Str) (r : Relation)
    → Follows t r (add_friend_request t from to text ex)
unfolding add_friend_request reset_friend_request create_friend_request
add_friend_request-Follows t from to text ex r =
    let out = add_friend_request t from to text ex in same-Follows t out.0 r out.1 (ground arith)

create_black-friends :
    (t next : FriendTables) (b : BlackModel)
    → create_black t b ≡ some next
    → next.friends ≡ t.friends
unfolding create_black
create_black-friends t next b h = ground arith

delete_black-friends :
    (t : FriendTables) (owner u : Str) → (delete_black t owner u).friends ≡ t.friends
unfolding delete_black
delete_black-friends t owner u = refl

-- A request leaves the friendships as they are, or changes them as it is intended; `DistinctAny`
-- is assumed to keep elements of its list, and one for each key.
pub handle-Follows :
    (c : FriendContext) (t : FriendTables) (command : FriendCommand)
    → Distincts c.distinct_any
    → Follows t (intended command (relation_of t)) (handle c t command)
unfolding handle apply_to_add_friend import_friends respond_friend_apply delete_friend
    set_friend_remark add_black remove_black delete update_remark
handle-Follows c t (apply req) d =
    let added =
      add_friend_request-Follows t req.from_user_id req.to_user_id req.req_msg req.ex
        (relation_of t) in
    search (follows, added) depth 12
handle-Follows c t (import_all owner ids) d =
    let imported = become_friends-Follows c t owner ids (pos 1) d in
    search (follows, imported) depth 12
handle-Follows c t (respond req) d = elim (Bool-cases (answer_is req.handle_result (pos 1))) [
  | inl h ↦
      let agreed = agree-Follows c t (request_of req) in
      rw (h, respond_friend_apply) (search (follows, agreed) depth 12)
  | inr h ↦
      rw (h, respond_friend_apply)
        (checked_at-Follows t (relation_of t) _ _ (
          if-Follows t (relation_of t) _ _ _ (refuse-Follows t (request_of req) (relation_of t))
            (stay-Follows t (relation_of t) (some args))))
]
handle-Follows c t (unfriend owner friend) d =
    let gone =
      new-Follows t (delete_friends t owner (friend ∷ []))
        (intended (unfriend owner friend) (relation_of t)) (c.del_friend_ids (friend ∷ owner ∷ []))
        (λ x y. delete_friends-relation t owner x y (friend ∷ [])) in
    search (follows, gone) depth 12
handle-Follows c t (remark owner friend text) d =
    let renamed =
      new-Follows t (update_remark_rows t owner friend text) (relation_of t)
        (c.del_friend owner friend) (update_remark_rows-relation t owner friend text) in
    search (follows, renamed) depth 12
handle-Follows c t (block owner u) d =
    let made =
      λ (next : FriendTables)
          (e : create_black t
              (record { owner_user_id = owner; block_user_id = u; operator_user_id = c.op_user_id })
            ≡ some next).
        same-Follows t next (relation_of t) (c.del_black_ids owner)
          (create_black-friends t next _ e) in
    search (follows, made) depth 12
handle-Follows c t (unblock owner u) d =
    checked_at-Follows t (relation_of t) (access c owner) _
      (same-Follows t (delete_black t owner u) (relation_of t) _ (delete_black-friends t owner u))
