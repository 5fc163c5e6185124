-- ===== src/Friend/Server/Relation.antt =====
-- The friendships that the table holds, as a relation, and what the statements do to it.
use k.Base.{
  any-append, ◌&&◌, ◌||◌, ◌≡◌, ◌∙◌, refl, ap, sym, inl, inr, Bool, Bool-cases, Option-cases, true,
  false, not, some, some_eq, List, [], ◌∷◌, ◌++◌, Str, str_eq, keep, any, change, contain, arith,
}
use k.Friend.Tables.{
  FriendModel, FriendTables, is_friend_row, insert_friends, create_friends, delete_friends,
  update_remark_rows,
}

-- Whether y is among the friends of x.
abbrev pub Relation : Type 0
Relation = Str → Str → Bool

abbrev pub relation_of : FriendTables → Relation
relation_of t x y = any (is_friend_row x y) t.friends

pub any-both {ℓ} :
    {A : Type ℓ} (p q : A → Bool) (xs : List A)
    → any p xs ≡ true
    → any (λ x. not (q x)) xs ≡ false
    → any (λ x. p x && q x) xs ≡ true
any-both p q [] h k = cc
any-both p q (x ∷ xs) h k = ground (arith, any-both p q xs)

insert_friends-any :
    (p : FriendModel → Bool) (rows news out : List FriendModel)
    → insert_friends rows news ≡ some out
    → any p out ≡ (any p rows || any p news)
unfolding insert_friends
insert_friends-any p rows [] out h = let e = some_eq h in rw (← e) ground arith
insert_friends-any p rows (new ∷ news) out h =
    elim (Bool-cases (any (is_friend_row new.owner_user_id new.friend_user_id) rows)) [
      | inl k ↦ let h' = rw k at h in cc
      | inr k ↦
          let h' = rw k at h in
          let ih = insert_friends-any p (rows ++ new ∷ []) news out h' in
          ground (arith, ih, any-append p rows (new ∷ []))
    ]

-- What a successful insertion gives.
pub create_friends-some :
    (t next : FriendTables) (news : List FriendModel)
    → create_friends t news ≡ some next
    → (rows : List FriendModel) × (insert_friends t.friends news ≡ some rows)
      × (record t { friends = rows } ≡ next)
unfolding create_friends
create_friends-some t next [] h = cc
create_friends-some t next (new ∷ news) h =
    elim (Option-cases (insert_friends t.friends (new ∷ news))) [
      | inl e ↦ let h' = rw (e, create_friends) at h in cc
      | inr (rows, e) ↦ let h' = rw (e, create_friends) at h in (rows, e, some_eq h')
    ]

pub create_friends-relation :
    (t next : FriendTables) (news : List FriendModel) (x y : Str)
    → create_friends t news ≡ some next
    → relation_of next x y ≡ (relation_of t x y || any (is_friend_row x y) news)
create_friends-relation t next news x y h =
    let (rows, e, same) = create_friends-some t next news h in
    ap (λ (r : FriendTables). relation_of r x y) (sym same)
    ∙ insert_friends-any (is_friend_row x y) t.friends news rows e

pub str_same : (a b : Str) → str_eq a b ≡ true → a ≡ b
str_same a b h = ground arith

pub both :
    (row : FriendModel) (x y : Str)
    → is_friend_row x y row ≡ true
    → (str_eq row.owner_user_id x ≡ true) × (str_eq row.friend_user_id y ≡ true)
both row x y h = ground arith

-- A row of the key is selected by its key.
pub selects_same :
    (owner x y : Str) (ids : List Str) (row : FriendModel)
    → is_friend_row x y row ≡ true
    → (str_eq row.owner_user_id owner && contain ids row.friend_user_id)
      ≡ (str_eq x owner && contain ids y)
selects_same owner x y ids row h =
    let (a, b) = both row x y h in
    ap (λ (u : Str). str_eq u owner && contain ids row.friend_user_id) (str_same _ x a)
    ∙ ap (λ (u : Str). str_eq x owner && contain ids u) (str_same _ y b)

-- A selection that gives b on every row that is looked for.
pub any-keep {ℓ} :
    {A : Type ℓ} (p q : A → Bool) (b : Bool) (xs : List A)
    → ((x : A) → p x ≡ true → q x ≡ b)
    → any p (keep q xs) ≡ (any p xs && b)
any-keep p q b [] h = refl
any-keep p q b (x ∷ xs) h = ground (arith, h x, any-keep p q b xs h)

pub delete_friends-relation :
    (t : FriendTables) (owner x y : Str) (ids : List Str)
    → relation_of (delete_friends t owner ids) x y
      ≡ (relation_of t x y && not (str_eq x owner && contain ids y))
unfolding delete_friends
delete_friends-relation t owner x y ids =
    any-keep (is_friend_row x y) _ _ t.friends (λ row h. ap not (selects_same owner x y ids row h))

change_remark-any :
    (q : FriendModel → Bool) (text x y : Str) (rows : List FriendModel)
    → any (is_friend_row x y) (change q (λ row. record row { remark = text }) rows)
      ≡ any (is_friend_row x y) rows
change_remark-any q text x y [] = refl
change_remark-any q text x y (row ∷ rows) = elim (Bool-cases (q row)) [
  | inl e ↦ rw (e, change_remark-any q text x y rows) refl
  | inr e ↦ rw (e, change_remark-any q text x y rows) refl
]

pub update_remark_rows-relation :
    (t : FriendTables) (owner friend text x y : Str)
    → relation_of (update_remark_rows t owner friend text) x y ≡ relation_of t x y
unfolding update_remark_rows
update_remark_rows-relation t owner friend text x y = change_remark-any _ text x y t.friends
