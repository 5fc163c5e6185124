-- ===== src/Group/Server/Rights.antt =====
-- Who may remove whom: KickGroupMember.
use k.Base.{
  some_eq, ◌&&◌, ◌==◌, ◌≡◌, ◌≢◌, ◌⊎◌, ◌∙◌, refl, sym, inl, inr, Bool-cases, Option-cases, true,
  false, Option, none, some, List, [], ◌∷◌, ◌++◌, Str, str_eq, str_eq_refl, keep, arith, subst,
}
use k.Group.Tables.{
  Tables, GroupMemberModel, GroupError, contain, find, is_member, take_group_member,
  find_group_member,
}
use k.Group.Server.Kept.{Kept, keeps}
use k.Group.Calls.{Context, is_app_manager_uid}
use k.Group.Leaving.{kick_right, check_kicked, kick_from_group, kick_group_member}

-- The owner outranks all others, an admin the ordinary members.
abbrev pub Outranks : GroupMemberModel → GroupMemberModel → Type 0
Outranks op target =
    (op.role_level ≡ 100)
    ⊎ ((op.role_level ≡ 60) × (target.role_level ≢ 100) × (target.role_level ≢ 60))

pub str_eq→eq : (a b : Str) → str_eq a b ≡ true → a ≡ b
str_eq→eq a b h = ground arith

kick_right-some :
    (op target : GroupMemberModel) → kick_right (some op) target ≡ none → Outranks op target
unfolding kick_right
kick_right-some op target h = elim (Bool-cases (op.role_level == 100)) [
  | inl e ↦ inl (ground arith)
  | inr e ↦ inr (ground arith, λ k. ground arith, λ k. ground arith)
]

kick_right-Outranks :
    (o : Option GroupMemberModel) (target : GroupMemberModel)
    → kick_right o target ≡ none
    → (op : GroupMemberModel) × (o ≡ some op) × Outranks op target
unfolding kick_right
kick_right-Outranks none target h = ground arith
kick_right-Outranks (some op) target h = (op, refl, kick_right-some op target h)

-- Among the rows that were found the user's row is the one of the table.
pub find-found :
    (g u : Str) (ids : List Str) (rows : List GroupMemberModel)
    → contain ids u ≡ true
    → find
        (λ row. str_eq row.user_id u)
        (keep (λ row. str_eq row.group_id g && contain ids row.user_id) rows)
      ≡ find (is_member g u) rows
find-found g u ids [] h = refl
find-found g u ids (row ∷ rows) h = elim (Bool-cases (str_eq row.group_id g)) [
  | inr e ↦ rw e (find-found g u ids rows h)
  | inl e ↦ elim (Bool-cases (str_eq row.user_id u)) [
    | inl k ↦ rw (e, k, str_eq→eq row.user_id u k, h, str_eq_refl u) refl
    | inr k ↦ elim (Bool-cases (contain ids row.user_id)) [
      | inl l ↦ rw (e, l, k) (find-found g u ids rows h)
      | inr l ↦ rw (e, l, k) (find-found g u ids rows h)
    ]
  ]
]

check_kicked-right :
    (members : List GroupMemberModel) (op : Option GroupMemberModel) (ids : List Str) (u : Str)
    (target : GroupMemberModel)
    → check_kicked false members op ids ≡ none
    → contain ids u ≡ true
    → find (λ row. str_eq row.user_id u) members ≡ some target
    → kick_right op target ≡ none
unfolding check_kicked
check_kicked-right members op [] u target h k f = ground arith
check_kicked-right members op (v ∷ ids) u target h k f =
    elim (Option-cases (find (λ row. str_eq row.user_id v) members)) [
      | inl n ↦ ground arith
      | inr (first, n) ↦ elim (Option-cases (kick_right op first)) [
        | inr (e, r) ↦ ground arith
        | inl r ↦ elim (Bool-cases (str_eq v u)) [
          | inl same ↦
              let f' =
                subst (λ x. find (λ row. str_eq row.user_id x) members ≡ some first)
                  (str_eq→eq v u same) n in
              subst (λ x. kick_right op x ≡ none) (some_eq (sym f' ∙ f)) r
          | inr other ↦
              let h' = rw (check_kicked, n, r) at h in
              let k' = rw other at k in check_kicked-right members op ids u target h' k' f
        ]
      ]
    ]

-- The rows of the kicked users and of the caller, and the check on them.
abbrev kick_check : Context → Tables → Str → List Str → Option GroupError
kick_check c t g ids =
    let members = find_group_member t g (ids ++ c.op_user_id ∷ []) in
    check_kicked (is_app_manager_uid c) members
      (find (λ row. str_eq row.user_id c.op_user_id) members) ids

kick_from_group-refused :
    (c : Context) (t : Tables) (g : Str) (ids : List Str) (e : GroupError)
    → kick_check c t g ids ≡ some e
    → Kept t (kick_from_group c t g ids)
unfolding kick_from_group
kick_from_group-refused c t g ids e h = rw (kick_from_group, h) (search keeps)

kick_group_member-refused :
    (c : Context) (t : Tables) (g : Str) (ids : List Str) (e : GroupError)
    → kick_check c t g ids ≡ some e
    → Kept t (kick_group_member c t g ids)
unfolding kick_group_member
kick_group_member-refused c t g ids e h =
    let k = kick_from_group-refused c t g ids e h in search (keeps, k) depth 12

contain-append :
    (ids : List Str) (u v : Str) → contain ids u ≡ true → contain (ids ++ v ∷ []) u ≡ true
contain-append [] u v h = ground arith
contain-append (w ∷ ids) u v h = ground (arith, contain-append ids u v)

contain-last : (ids : List Str) (v : Str) → contain (ids ++ v ∷ []) v ≡ true
contain-last [] v = rw (str_eq_refl v) refl
contain-last (w ∷ ids) v = ground (arith, contain-last ids v)

-- Who is kicked is outranked: where a caller who is no manager of the application changes the tables by
-- KickGroupMember, the caller is in the group and outranks every user of the list who is in it.
pub kick_group_member-Outranks :
    (c : Context) (t : Tables) (g : Str) (ids : List Str) (u : Str) (target : GroupMemberModel)
    → is_app_manager_uid c ≡ false
    → (kick_group_member c t g ids).0 ≢ t
    → contain ids u ≡ true
    → take_group_member t g u ≡ some target
    → (op : GroupMemberModel) × (take_group_member t g c.op_user_id ≡ some op) × Outranks op target
unfolding take_group_member find_group_member Kept
kick_group_member-Outranks c t g ids u target m h k f =
    let ids' = ids ++ c.op_user_id ∷ [] in
    let same = find-found g u ids' t.members (contain-append ids u c.op_user_id k) in
    let own = find-found g c.op_user_id ids' t.members (contain-last ids c.op_user_id) in
    elim (Option-cases (kick_check c t g ids)) [
      | inr (e, r) ↦ absurd (h (kick_group_member-refused c t g ids e r))
      | inl r ↦
          let r' = rw m at r in
          let right = check_kicked-right _ _ ids u target r' k (same ∙ f) in
          let (op, e, rank) = kick_right-Outranks _ target right in (op, sym own ∙ e, rank)
    ]
