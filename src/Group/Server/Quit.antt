-- ===== src/Group/Server/Quit.antt =====
-- QuitGroup: who leaves.
use k.Base.{
  ◌&&◌, ◌==◌, ◌≡◌, ◌≢◌, refl, false, not, none, some, List, [], ◌∷◌, Str, str_eq, keep, arith,
}
use k.Group.Tables.{
  take_group, GroupModel, Tables, GroupMemberModel, contain, find, is_member, take_group_member,
  delete_group_member,
}
use k.Group.Calls.{Context}
use k.Group.Leaving.{quit_from_group, quit_group, who_quits}
use k.Group.Server.Ends.{Ends, ends}

find-delete_same :
    (g u : Str) (rows : List GroupMemberModel)
    → find
        (is_member g u)
        (keep (λ row. not (str_eq row.group_id g && contain (u ∷ []) row.user_id)) rows)
      ≡ none
find-delete_same g u [] = refl
find-delete_same g u (x ∷ rows) = ground (arith, find-delete_same g u rows)

find-delete_other :
    (g u v : Str) (rows : List GroupMemberModel)
    → str_eq u v ≡ false
    → find
        (is_member g v)
        (keep (λ row. not (str_eq row.group_id g && contain (u ∷ []) row.user_id)) rows)
      ≡ find (is_member g v) rows
find-delete_other g u v [] h = refl
find-delete_other g u v (x ∷ rows) h = ground (arith, find-delete_other g u v rows)

-- The user was a member below the owner, is none any more, and the other members are kept.
abbrev pub Quitted : Tables → Tables → Str → Str → Type 0
Quitted t left g u =
    ((info : GroupMemberModel) × (take_group_member t g u ≡ some info) × (info.role_level ≢ 100))
    × (take_group_member left g u ≡ none)
    × ((v : Str) → str_eq u v ≡ false → take_group_member left g v ≡ take_group_member t g v)

unfoldable Gone : Tables → Str → Str → Tables → Type 0
Gone t g u left = Quitted t left g u

delete-Gone :
    (t : Tables) (g u : Str) (info : GroupMemberModel)
    → take_group_member t g u ≡ some info
    → (info.role_level == 100) ≡ false
    → Gone t g u (delete_group_member t g (u ∷ []))
unfolding Gone take_group_member delete_group_member
delete-Gone t g u info h k = (
  (info, h, λ e. ground arith),
  find-delete_same g u t.members,
  λ v p. find-delete_other g u v t.members p,
)

quit_from_group-Ends :
    (c : Context) (t : Tables) (g u : Str) → Ends (Gone t g u) (quit_from_group c t g u)
unfolding quit_from_group
quit_from_group-Ends c t g u = search (ends, delete-Gone) depth 14

quit_group-Ends :
    (c : Context) (t : Tables) (g u : Str) (group : GroupModel)
    → take_group t g ≡ some group
    → (group.group_type == 1) ≡ false
    → Ends (Gone t g (who_quits c u)) (quit_group c t g u)
unfolding quit_group
quit_group-Ends c t g u group h k =
    rw (h, k, quit_group) (search (ends, quit_from_group-Ends) depth 14)

-- A quit from a group other than a super group, if it succeeds, takes out the one user who quits, who
-- was a member and not the owner, and leaves any other member `v` of the group as it is.
pub quit_group-Quitted :
    (c : Context) (t : Tables) (g u v : Str) (group : GroupModel)
    → take_group t g ≡ some group
    → (group.group_type == 1) ≡ false
    → (quit_group c t g u).1 ≡ none
    → str_eq (who_quits c u) v ≡ false
    → ((info : GroupMemberModel) × (take_group_member t g (who_quits c u) ≡ some info)
        × (info.role_level ≢ 100))
      × (take_group_member (quit_group c t g u).0 g (who_quits c u) ≡ none)
      × (take_group_member (quit_group c t g u).0 g v ≡ take_group_member t g v)
unfolding Ends Gone
quit_group-Quitted c t g u v group e k h d =
    let (was, now, other) = quit_group-Ends c t g u group e k h in (was, now, other v d)
