-- ===== src/MsgVerify/Send/Laws.antt =====
-- Which messages messageVerification lets through.
use k.Base.{
  ◌&&◌, ℕ, ◌<◌, ◌==◌, leb, ◌≡◌, ◌≢◌, ◌⊎◌, ◌↔◌, refl, inl, inr, Bool, Bool-cases, true, false, not,
  if◌then◌else◌, Option, none, some, contains, arith, subst, sym,
}
use k.Constant.{single_chat_type, super_group_chat_type}
use k.MsgVerify.Send.{
  muted_group, muted_in_group, blocked_by_peer, not_peers_friend, MsgData, GroupInfo,
  GroupMemberFullInfo, VerifyError, Services, is_notification_content, verify_single, verify_group,
  message_verification,
}

not_eq : (a b : ℕ) → a ≢ b → (a == b) ≡ false
not_eq a b h = ground arith

abbrev single_answer : Bool → Bool → Bool → Option VerifyError
single_answer asked blocked friend =
    if blocked
    then some blocked_by_peer
    else if asked
    then (if friend then none else some not_peers_friend)
    else none

answer_passes :
    (asked blocked friend : Bool)
    → (single_answer asked blocked friend ≡ none)
      ↔ ((blocked ≡ false) × ((asked ≡ false) ⊎ (friend ≡ true)))
answer_passes asked true friend = (λ h. ground arith, λ h. ground arith)
answer_passes true false true = (λ h. (refl, inr refl), λ h. refl)
answer_passes true false false = (λ h. ground arith, λ h. ground arith)
answer_passes false false friend = (λ h. (refl, inl refl), λ h. refl)

single_chat_answer :
    (s : Services) (m : MsgData) (blocked friend : Bool)
    → m.session_type ≡ single_chat_type
    → contains m.send_id s.managers ≡ false
    → is_notification_content m.content_type ≡ false
    → s.is_blocked m.send_id m.recv_id ≡ inr blocked
    → s.is_friend m.send_id m.recv_id ≡ inr friend
    → message_verification s m ≡ single_answer s.friend_verify blocked friend
unfolding message_verification verify_single
single_chat_answer s m true friend t c n b f =
    rw (message_verification, verify_single, t, c, n, b) refl
single_chat_answer s m false true t c n b f =
    rw (message_verification, verify_single, t, c, n, b, f) refl
single_chat_answer s m false false t c n b f =
    rw (message_verification, verify_single, t, c, n, b, f) refl

-- Between two users an ordinary message of one who is no manager passes exactly if the peer has not
-- blocked the sender and, where friends are asked for, the peer is a friend.
pub single_chat_passes :
    (s : Services) (m : MsgData) (blocked friend : Bool)
    → m.session_type ≡ single_chat_type
    → contains m.send_id s.managers ≡ false
    → is_notification_content m.content_type ≡ false
    → s.is_blocked m.send_id m.recv_id ≡ inr blocked
    → s.is_friend m.send_id m.recv_id ≡ inr friend
    → (message_verification s m ≡ none)
      ↔ ((blocked ≡ false) × ((s.friend_verify ≡ false) ⊎ (friend ≡ true)))
unfolding message_verification verify_single
single_chat_passes s m blocked friend t c n b f =
    subst (λ x. (x ≡ none) ↔ ((blocked ≡ false) × ((s.friend_verify ≡ false) ⊎ (friend ≡ true))))
      (sym (single_chat_answer s m blocked friend t c n b f))
      (answer_passes s.friend_verify blocked friend)

-- Who may write in a group: the owner always; another member whose mute has ended, if the group is not
-- muted or the member is an admin.
abbrev pub MayWrite : ℕ → GroupInfo → GroupMemberFullInfo → Type 0
MayWrite now group member =
    (member.role_level ≡ 100)
    ⊎ ((member.mute_end_time < now) × ((group.status ≢ 3) ⊎ (member.role_level ≡ 60)))

abbrev member_answer : ℕ → GroupInfo → GroupMemberFullInfo → Option VerifyError
member_answer now group member =
    if member.role_level == 100
    then none
    else if leb now member.mute_end_time
    then some muted_in_group
    else if (group.status == 3) && not (member.role_level == 60)
    then some muted_group
    else none

may_write :
    (now : ℕ) (group : GroupInfo) (member : GroupMemberFullInfo)
    → member_answer now group member ≡ none
    → MayWrite now group member
may_write now group member h = elim (Bool-cases (member.role_level == 100)) [
  | inl e ↦ inl (ground arith)
  | inr e ↦ elim (Bool-cases (member.role_level == 60)) [
    | inl k ↦ inr (ground arith, inr (ground arith))
    | inr k ↦ inr (ground arith, inl (λ l. ground arith))
  ]
]

member_passes :
    (now : ℕ) (group : GroupInfo) (member : GroupMemberFullInfo)
    → (member_answer now group member ≡ none) ↔ MayWrite now group member
member_passes now group member = (λ h. may_write now group member h, λ h. ground arith)

group_chat_answer :
    (s : Services) (m : MsgData) (group : GroupInfo) (member : GroupMemberFullInfo)
    → m.session_type ≡ super_group_chat_type
    → contains m.send_id s.managers ≡ false
    → is_notification_content m.content_type ≡ false
    → s.get_group_info m.group_id ≡ inr group
    → (group.status ≢ 2) × (group.group_type ≢ 1)
    → s.get_group_member m.group_id m.send_id ≡ inr member
    → message_verification s m ≡ member_answer s.now group member
unfolding message_verification verify_group
group_chat_answer s m group member t c n g (k, l) f =
    rw
      (
        message_verification,
        verify_group,
        t,
        g,
        c,
        n,
        f,
        not_eq group.status 2 k,
        not_eq group.group_type 1 l,
      )
      refl

-- In a working group that is not dismissed, an ordinary message of a member who is no manager passes
-- exactly if the member may write.
pub group_chat_passes :
    (s : Services) (m : MsgData) (group : GroupInfo) (member : GroupMemberFullInfo)
    → m.session_type ≡ super_group_chat_type
    → contains m.send_id s.managers ≡ false
    → is_notification_content m.content_type ≡ false
    → s.get_group_info m.group_id ≡ inr group
    → (group.status ≢ 2) × (group.group_type ≢ 1)
    → s.get_group_member m.group_id m.send_id ≡ inr member
    → (message_verification s m ≡ none) ↔ MayWrite s.now group member
unfolding message_verification verify_group
group_chat_passes s m group member t c n g k f =
    subst (λ x. (x ≡ none) ↔ MayWrite s.now group member)
      (sym (group_chat_answer s m group member t c n g k f)) (member_passes s.now group member)
