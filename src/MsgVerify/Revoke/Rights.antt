-- ===== src/MsgVerify/Revoke/Rights.antt =====
-- What has to hold for a message to be taken back.
use k.Base.{
  ℕ, ◌==◌, ◌≡◌, ◌≢◌, ◌⊎◌, refl, Bool, Bool-cases, true, false, if◌then◌else◌, Option, none, some,
  List, [], Str, str_eq, inl, inr, arith,
}
use k.Constant.{single_chat_type, super_group_chat_type}
use k.MsgVerify.Revoke.{
  Message, RevokeError, RevokeMsgReq, UserInfo, Context, Run, asked, checked, is_app_manager_uid,
  check_access_v3, group_right, wanted, find_role, write_revoke, revoke_message, first_message,
  revoke_msg,
}

-- What follows if a run writes.
unfoldable Writes : Type 0 → Run → Type 0
Writes P run = run.0 ≢ [] → P

stop-Writes : (P : Type 0) (e : RevokeError) → Writes P ([], some e)
unfolding Writes
stop-Writes P e h = absurd (h refl)

asked-Writes {ℓ} :
    {A : Type ℓ} (P : Type 0) (o : RevokeError ⊎ A) (next : A → Run)
    → ((a : A) → o ≡ inr a → Writes P (next a))
    → Writes P (asked o next)
unfolding Writes
asked-Writes P (inl e) next k h = absurd (h refl)
asked-Writes P (inr a) next k h = k a refl h

checked-Writes :
    (P : Type 0) (e : Option RevokeError) (next : Run)
    → (e ≡ none → Writes P next)
    → Writes P (checked e next)
unfolding Writes
checked-Writes P none next k h = k refl h
checked-Writes P (some e) next k h = absurd (h refl)

if-Writes :
    (P : Type 0) (b : Bool) (x y : Run)
    → (b ≡ true → Writes P x)
    → (b ≡ false → Writes P y)
    → Writes P (if b then x else y)
if-Writes P true x y k l = k refl
if-Writes P false x y k l = l refl

done-Writes : (P : Type 0) (run : Run) → P → Writes P run
unfolding Writes
done-Writes P run p h = p

ruleset writes = (stop-Writes, asked-Writes, checked-Writes, if-Writes)

-- The user takes back an own message, or one of a group where the user's role allows it: an owner takes
-- back any, an admin the ones of ordinary members.
abbrev pub MayRevoke : Context → RevokeMsgReq → Message → Type 0
MayRevoke c req m =
    ((m.session_type ≡ single_chat_type) × (c.op_user_id ≡ m.send_id))
    ⊎ ((m.session_type ≡ super_group_chat_type) × (req.user_id ≡ m.send_id))
    ⊎ ((members : Str → Option ℕ) × (c.members m.group_id (wanted req.user_id m.send_id)
          ≡ inr members)
        × ((members req.user_id ≡ some 100)
            ⊎ ((members req.user_id ≡ some 60) × (members m.send_id ≡ some 20))))

access-owner :
    (c : Context) (u : Str)
    → is_app_manager_uid c ≡ false
    → check_access_v3 c u ≡ none
    → c.op_user_id ≡ u
unfolding is_app_manager_uid check_access_v3
access-owner c u m h = ground arith

group_right-roles :
    (a b : Option ℕ) → group_right a b ≡ none → (a ≡ some 100) ⊎ ((a ≡ some 60) × (b ≡ some 20))
unfolding group_right
group_right-roles none b h = ground arith
group_right-roles (some x) none h = inl (ground arith)
group_right-roles (some x) (some y) h = elim (Bool-cases (x == 100)) [
  | inl e ↦ inl (ground arith)
  | inr e ↦ inr (ground arith, ground arith)
]

group-MayRevoke :
    (c : Context) (req : RevokeMsgReq) (m : Message) (members : Str → Option ℕ)
    → (m.session_type == super_group_chat_type) ≡ true
    → c.members m.group_id (wanted req.user_id m.send_id) ≡ inr members
    → (if str_eq req.user_id m.send_id
        then none
        else group_right (members req.user_id) (members m.send_id))
      ≡ none
    → MayRevoke c req m
group-MayRevoke c req m members t k h = elim (Bool-cases (str_eq req.user_id m.send_id)) [
  | inl e ↦ inr (inl (ground arith, ground arith))
  | inr e ↦
      let h' = rw e at h in
      inr (inr (members, k, group_right-roles (members req.user_id) (members m.send_id) h'))
]

single-MayRevoke :
    (c : Context) (req : RevokeMsgReq) (m : Message)
    → is_app_manager_uid c ≡ false
    → (m.session_type == single_chat_type) ≡ true
    → check_access_v3 c m.send_id ≡ none
    → MayRevoke c req m
single-MayRevoke c req m a t h = inl (ground arith, access-owner c m.send_id a h)

find_role-Writes :
    (c : Context) (req : RevokeMsgReq) (user : UserInfo) (m : Message) (next : ℕ → Run)
    → is_app_manager_uid c ≡ false
    → Writes (MayRevoke c req m) (find_role c req user m next)
unfolding find_role
find_role-Writes c req user m next a =
    search (writes, done-Writes, single-MayRevoke c req m a, group-MayRevoke c req m) depth 14

-- The message that is taken back, and the right to do it.
abbrev pub Revokes : Context → RevokeMsgReq → Message → Type 0
Revokes c req m = (m.content_type ≢ 2101) × (c.op_user_id ≡ req.user_id) × MayRevoke c req m

revoke_message-Writes :
    (c : Context) (req : RevokeMsgReq) (user : UserInfo) (m : Message)
    → is_app_manager_uid c ≡ false
    → c.op_user_id ≡ req.user_id
    → (revoke_message c req user m).0 ≢ []
    → Revokes c req m
unfolding revoke_message Writes
revoke_message-Writes c req user m a o h = elim (Bool-cases (m.content_type == 2101)) [
  | inl e ↦ absurd (h (rw (revoke_message, e) refl))
  | inr e ↦ (
    λ k. ground arith,
    o,
    find_role-Writes c req user m (write_revoke c req user m) a
        (λ k. h (rw (revoke_message, e, a) k)),
  )
]

unfoldable Taken : Context → RevokeMsgReq → Type 0
Taken c req =
    (msgs : List (Option Message)) × (m : Message) × (c.get_msg_by_seqs req.user_id
        req.conversation_id req.seq
      ≡ inr msgs)
    × (first_message msgs ≡ inr m)
    × Revokes c req m

read-Writes :
    (c : Context) (req : RevokeMsgReq) (user : UserInfo) (msgs : List (Option Message))
    (m : Message)
    → is_app_manager_uid c ≡ false
    → check_access_v3 c req.user_id ≡ none
    → c.get_msg_by_seqs req.user_id req.conversation_id req.seq ≡ inr msgs
    → first_message msgs ≡ inr m
    → Writes (Taken c req) (revoke_message c req user m)
unfolding Writes Taken
read-Writes c req user msgs m a o g f h =
    (msgs, m, g, f, revoke_message-Writes c req user m a (access-owner c req.user_id a o) h)

revoke_msg-Writes :
    (c : Context) (req : RevokeMsgReq)
    → is_app_manager_uid c ≡ false
    → Writes (Taken c req) (revoke_msg c req)
unfolding revoke_msg
revoke_msg-Writes c req a = search (writes, read-Writes, a) depth 20

-- A caller who is no manager and whose call of RevokeMsg writes a revocation acts for itself, and the message
-- that was read is there, is not yet revoked, and is one that the caller may take back.
pub revoke_msg-Revokes :
    (c : Context) (req : RevokeMsgReq)
    → is_app_manager_uid c ≡ false
    → (revoke_msg c req).0 ≢ []
    → (msgs : List (Option Message)) × (m : Message) × (c.get_msg_by_seqs req.user_id
          req.conversation_id req.seq
        ≡ inr msgs)
      × (first_message msgs ≡ inr m)
      × Revokes c req m
unfolding Writes Taken
revoke_msg-Revokes c req a h = revoke_msg-Writes c req a h
