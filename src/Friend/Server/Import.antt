-- ===== src/Friend/Server/Import.antt =====
-- BecomeFriends: the rows that it inserts, and what becomes of an import.
use k.Base.{
  any-append, ◌&&◌, ◌||◌, ◌≡◌, ◌∙◌, refl, ap, inl, inr, ℤ, Bool, Bool-cases, Option-cases, true,
  false, not, some, List, [], ◌∷◌, ◌++◌, map, Str, str_eq, str_eq_refl, keep, any, contain, arith,
}
use k.Friend.Tables.{
  FriendModel, FriendTables, is_friend_row, find_friends, find_reversal_friends, create_friends,
}
use k.Friend.Database.{FriendContext, friend_row, own_rows, reversal_rows, befriend_rows}
use k.Friend.Server.Relation.{relation_of, str_same, create_friends-relation}

-- What is assumed of `DistinctAny`: it keeps elements of the list, and one for each key.
pub record Distincts (f : (FriendModel → Str) → List FriendModel → List FriendModel) : Type 0 where
  pub covers :
      (key : FriendModel → Str) (rows : List FriendModel) (a : Str)
      → any (λ row. str_eq (key row) a) (f key rows) ≡ any (λ row. str_eq (key row) a) rows
  pub within :
      (key : FriendModel → Str) (rows : List FriendModel) (p : FriendModel → Bool)
      → any p rows ≡ false
      → any p (f key rows) ≡ false

-- Rows that all pass q, and on which a test is b together with p.
any-const {ℓ} :
    {A : Type ℓ} (p q test : A → Bool) (b : Bool) (xs : List A)
    → any (λ x. not (q x)) xs ≡ false
    → ((x : A) → q x ≡ true → test x ≡ (b && p x))
    → any test xs ≡ (b && any p xs)
any-const p q test b [] h k = ground arith
any-const p q test b (x ∷ xs) h k = ground (arith, k x, any-const p q test b xs)

any-keep_none {ℓ} :
    {A : Type ℓ} (p q : A → Bool) (xs : List A)
    → ((x : A) → q x ≡ true → p x ≡ false)
    → any p (keep q xs) ≡ false
any-keep_none p q [] h = refl
any-keep_none p q (x ∷ xs) h = ground (arith, h x, any-keep_none p q xs h)

any-map {ℓ κ} :
    {A : Type ℓ} {B : Type κ} (p : B → Bool) (f : A → B) (xs : List A)
    → any p (map f xs) ≡ any (λ x. p (f x)) xs
any-map p f [] = refl
any-map p f (x ∷ xs) = ground (arith, any-map p f xs)

any-none {ℓ} :
    {A : Type ℓ} (p : A → Bool) (xs : List A) → ((x : A) → p x ≡ false) → any p xs ≡ false
any-none p [] h = refl
any-none p (x ∷ xs) h = ground (arith, h x, any-none p xs h)

differs :
    (ids : List Str) (a y : Str) → contain ids a ≡ true → contain ids y ≡ false → str_eq a y ≡ false
differs ids a y h k = elim (Bool-cases (str_eq a y)) [
  | inl e ↦ let h' = rw (str_same a y e) at h in cc
  | inr e ↦ e
]

and_true : (a b : Bool) → (a && b) ≡ true → (a ≡ true) × (b ≡ true)
and_true a b h = ground arith

and_comm : (a b : Bool) → (a && b) ≡ (b && a)
and_comm a b = ground arith

or_none : (a b : Bool) → a ≡ false → b ≡ false → (a || b) ≡ false
or_none a b h k = ground arith

-- What was found among `ids` by its key adds no key to the rows made for `ids`.
module _ (key : FriendModel → Str) (sel : FriendModel → Bool) (make : Str → FriendModel)
    (ids : List Str) (rows : List FriendModel)
    (found : (row : FriendModel) → sel row ≡ true → contain ids (key row) ≡ true)
    (made : (u : Str) → key (make u) ≡ u) where
  found-keys :
      (y : Str) → contain ids y ≡ false → any (λ row. str_eq (key row) y) (keep sel rows) ≡ false
  found-keys y h = any-keep_none _ sel rows (λ row k. differs ids (key row) y (found row k) h)

  made-keys :
      (y : Str) (us : List Str) → any (λ row. str_eq (key row) y) (map make us) ≡ contain us y
  made-keys y [] = refl
  made-keys y (u ∷ us) = rw (made u, made-keys y us) refl

  all-keys :
      (y : Str) → any (λ row. str_eq (key row) y) (keep sel rows ++ map make ids) ≡ contain ids y
  all-keys y = elim (Bool-cases (contain ids y)) [
    | inl h ↦ ground (
      arith,
      any-append (λ row. str_eq (key row) y) (keep sel rows) (map make ids),
      made-keys y ids,
    )
    | inr h ↦ ground (
      arith,
      any-append (λ row. str_eq (key row) y) (keep sel rows) (map make ids),
      made-keys y ids,
      found-keys y h,
    )
  ]

  one_side :
      (f : (FriendModel → Str) → List FriendModel → List FriendModel) (side : FriendModel → Str)
      (owner x y : Str) (test : FriendModel → Bool)
      → Distincts f
      → ((row : FriendModel) → sel row ≡ true → str_eq (side row) owner ≡ true)
      → ((u : Str) → side (make u) ≡ owner)
      → ((row : FriendModel)
          → str_eq (side row) owner ≡ true
          → test row ≡ (str_eq owner x && str_eq (key row) y))
      → any test (f key (keep sel rows ++ map make ids)) ≡ (str_eq owner x && contain ids y)
  one_side f side owner x y test d selected mine reads =
      let all = keep sel rows ++ map make ids in
      let off = λ (row : FriendModel). not (str_eq (side row) owner) in
      let none_found = any-keep_none off sel rows (λ row k. rw (selected row k) refl) in
      let none_made =
        any-map off make ids ∙ any-none _ ids (λ u. rw (mine u, str_eq_refl owner) refl) in
      let none_off =
        any-append off (keep sel rows) (map make ids) ∙ or_none _ _ none_found none_made in
      any-const (λ row. str_eq (key row) y) (λ row. str_eq (side row) owner) test (str_eq owner x)
        (f key all) (d.within key all off none_off) reads
      ∙ ap (λ b. str_eq owner x && b) (d.covers key all y ∙ all-keys y)

module _ (c : FriendContext) (t : FriendTables) (owner x y : Str) (ids : List Str) (source : ℤ)
    (d : Distincts c.distinct_any) where
  pub own_rows-any :
      any (is_friend_row x y) (own_rows c t owner ids source) ≡ (str_eq owner x && contain ids y)
  unfolding own_rows find_friends
  own_rows-any =
      one_side (λ row. row.friend_user_id) _ (λ u. friend_row owner u source c.operation_id) ids
        t.friends (λ row h. (and_true _ _ h).1) (λ u. refl) c.distinct_any
        (λ row. row.owner_user_id) owner x y (is_friend_row x y) d (λ row h. (and_true _ _ h).0)
        (λ u. refl)
        (λ row h. ap (λ u. str_eq u x && str_eq row.friend_user_id y) (str_same _ owner h))

  pub reversal_rows-any :
      any (is_friend_row x y) (reversal_rows c t owner ids source)
      ≡ (str_eq owner y && contain ids x)
  unfolding reversal_rows find_reversal_friends
  reversal_rows-any =
      one_side (λ row. row.owner_user_id) _ (λ u. friend_row u owner source c.operation_id) ids
        t.friends (λ row h. (and_true _ _ h).1) (λ u. refl) c.distinct_any
        (λ row. row.friend_user_id) owner y x (is_friend_row x y) d (λ row h. (and_true _ _ h).0)
        (λ u. refl)
        (λ row h.
          ap (λ u. str_eq row.owner_user_id x && str_eq u y) (str_same _ owner h)
          ∙ and_comm (str_eq row.owner_user_id x) (str_eq owner y))

-- A transaction of BecomeFriends that succeeds makes the owner and the others friends of each other.
pub befriend_rows-relation :
    (c : FriendContext) (t next : FriendTables) (owner x y : Str) (ids : List Str) (source : ℤ)
    → Distincts c.distinct_any
    → befriend_rows c t owner ids source ≡ some next
    → relation_of next x y ≡ (
        relation_of t x y || (str_eq owner x && contain ids y) || (str_eq owner y && contain ids x))
unfolding befriend_rows
befriend_rows-relation c t next owner x y ids source d h =
    elim (Option-cases (create_friends t (own_rows c t owner ids source))) [
      | inl e ↦ let h' = rw (e, befriend_rows) at h in cc
      | inr (mid, e) ↦
          let h' = rw (e, befriend_rows) at h in
          let one = create_friends-relation t mid (own_rows c t owner ids source) x y e in
          let two =
            create_friends-relation mid next (reversal_rows c mid owner ids source) x y h' in
          ground (
            arith,
            one,
            two,
            own_rows-any c t owner x y ids source d,
            reversal_rows-any c mid owner x y ids source d,
          )
    ]
