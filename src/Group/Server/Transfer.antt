-- ===== src/Group/Server/Transfer.antt =====
-- TransferGroupOwner: what becomes of the roles.
use k.Base.{
  ◌&&◌, ℕ, ◌≡◌, ◌∙◌, refl, sym, ap, inl, inr, Bool, Bool-cases, true, false, Option, none, some,
  List, [], ◌∷◌, Str, str_eq, arith,
}
use k.Group.Tables.{
  Tables, GroupMemberModel, change, contain, find, is_member, take_group_member, find_group_member,
  update_role_level, transfer_rows, affected,
}
use k.Group.Calls.{Context}
use k.Group.Roles.{transfer_group_owner, commit_transfer}
use k.Group.Server.Rights.{find-found}
use k.Group.Server.Ends.{Ends, ends, refused-Ends, ok-Ends}

abbrev role_in : Option GroupMemberModel → Option ℕ
role_in none = none
role_in (some row) = some row.role_level

-- A user's role in a group.
unfoldable pub role_of : Tables → Str → Str → Option ℕ
role_of t g u = role_in (take_group_member t g u)

find-change_same :
    (g u : Str) (role : ℕ) (rows : List GroupMemberModel) (row : GroupMemberModel)
    → find (is_member g u) rows ≡ some row
    → role_in
        (find (is_member g u) (change (is_member g u) (λ r. record r { role_level = role }) rows))
      ≡ some role
find-change_same g u role [] row h = ground arith
find-change_same g u role (x ∷ rows) row h = elim (Bool-cases (is_member g u x)) [
  | inl e ↦ rw (e, e) refl
  | inr e ↦ let h' = rw e at h in rw (e, e) (find-change_same g u role rows row h')
]

str_eq-sym : (a b : Str) → str_eq a b ≡ str_eq b a
str_eq-sym a b = ground arith

not_v :
    (x : GroupMemberModel) (g u v : Str)
    → is_member g u x ≡ true
    → str_eq u v ≡ false
    → (str_eq x.group_id g && str_eq x.user_id v) ≡ false
not_v x g u v e h = ground arith

find-change_other :
    (g u v : Str) (role : ℕ) (rows : List GroupMemberModel)
    → str_eq u v ≡ false
    → find (is_member g v) (change (is_member g u) (λ r. record r { role_level = role }) rows)
      ≡ find (is_member g v) rows
find-change_other g u v role [] h = refl
find-change_other g u v role (x ∷ rows) h = elim (Bool-cases (is_member g u x)) [
  | inr e ↦ rw (e, find-change_other g u v role rows h) refl
  | inl e ↦ rw (e, not_v x g u v e h, find-change_other g u v role rows h) refl
]

role_of-same :
    (t : Tables) (g u : Str) (role : ℕ) (row : GroupMemberModel)
    → take_group_member t g u ≡ some row
    → role_of (update_role_level t g u role) g u ≡ some role
unfolding role_of take_group_member update_role_level
role_of-same t g u role row h = find-change_same g u role t.members row h

role_of-other :
    (t : Tables) (g u v : Str) (role : ℕ)
    → str_eq u v ≡ false
    → role_of (update_role_level t g u role) g v ≡ role_of t g v
unfolding role_of take_group_member update_role_level
role_of-other t g u v role h = ap role_in (find-change_other g u v role t.members h)

take-other :
    (t : Tables) (g u v : Str) (role : ℕ)
    → str_eq u v ≡ false
    → take_group_member (update_role_level t g u role) g v ≡ take_group_member t g v
unfolding take_group_member update_role_level
take-other t g u v role h = find-change_other g u v role t.members h

-- The roles that a transfer leaves: the new owner is an owner, the old one has the role that the new one
-- had, and the others have theirs.
abbrev pub Transferred : Tables → Tables → Str → Str → Str → Type 0
Transferred t left g old new =
    (role_of left g new ≡ some 100)
    × (role_of left g old ≡ role_of t g new)
    × ((u : Str) → str_eq old u ≡ false → str_eq new u ≡ false → role_of left g u ≡ role_of t g u)

updates-Transferred :
    (t : Tables) (g old new : Str) (from to : GroupMemberModel)
    → str_eq old new ≡ false
    → take_group_member t g old ≡ some from
    → take_group_member t g new ≡ some to
    → Transferred t
        (update_role_level (update_role_level t g old to.role_level) g new 100)
        g
        old
        new
unfolding role_of
updates-Transferred t g old new from to h a b =
    let moved = update_role_level t g old to.role_level in
    (
      role_of-same moved g new 100 to (take-other t g old new to.role_level h ∙ b),
      role_of-other moved g new old 100 (str_eq-sym new old ∙ h)
          ∙ role_of-same t g old to.role_level from a
          ∙ sym (ap role_in b),
      λ u p q. role_of-other moved g new u 100 q ∙ role_of-other t g old u to.role_level p,
    )

found_member :
    (t : Tables) (g u : Str) (ids : List Str) (row : GroupMemberModel)
    → contain ids u ≡ true
    → find (λ r. str_eq r.user_id u) (find_group_member t g ids) ≡ some row
    → take_group_member t g u ≡ some row
unfolding find_group_member take_group_member
found_member t g u ids row c h = sym (find-found g u ids t.members c) ∙ h

unfoldable Moves : Tables → Str → Str → Str → Tables → Type 0
Moves t g old new left = Transferred t left g old new

commit_transfer-Ends :
    (b : Bool) (t : Tables) (g old new : Str) (from to : GroupMemberModel)
    → str_eq old new ≡ false
    → find (λ r. str_eq r.user_id old) (find_group_member t g (old ∷ new ∷ [])) ≡ some from
    → find (λ r. str_eq r.user_id new) (find_group_member t g (old ∷ new ∷ [])) ≡ some to
    → Ends (Moves t g old new) (commit_transfer t (transfer_rows b t g old new to.role_level))
unfolding transfer_rows Moves
commit_transfer-Ends b t g old new from to h p q =
    elim (Bool-cases (
      affected b t g old to.role_level
      && affected b (update_role_level t g old to.role_level) g new 100)) [
        | inr e ↦ rw (transfer_rows, e) (refused-Ends (Moves t g old new) t _)
        | inl e ↦
            rw (transfer_rows, e)
              (ok-Ends (Moves t g old new) _ (
                updates-Transferred t g old new from to h
                  (found_member t g old (old ∷ new ∷ []) from (ground arith) p)
                  (found_member t g new (old ∷ new ∷ []) to (ground arith) q)))
      ]

transfer_group_owner-Ends :
    (c : Context) (t : Tables) (g old new : Str)
    → Ends (Moves t g old new) (transfer_group_owner c t g old new)
unfolding transfer_group_owner
transfer_group_owner-Ends c t g old new = search (ends, commit_transfer-Ends) depth 20

-- A transfer that succeeds makes the new user the owner, gives the old one the new one's former role, and
-- leaves every other user of the group the role that the user had.
pub transfer_group_owner-Transferred :
    (c : Context) (t : Tables) (g old new u : Str)
    → (transfer_group_owner c t g old new).1 ≡ none
    → (str_eq old u ≡ false) × (str_eq new u ≡ false)
    → (role_of (transfer_group_owner c t g old new).0 g new ≡ some 100)
      × (role_of (transfer_group_owner c t g old new).0 g old ≡ role_of t g new)
      × (role_of (transfer_group_owner c t g old new).0 g u ≡ role_of t g u)
unfolding Ends Moves
transfer_group_owner-Transferred c t g old new u h (p, q) =
    let (a, b, other) = transfer_group_owner-Ends c t g old new h in (a, b, other u p q)
