-- ===== src/MsgProcessor/Conversation/Names.antt =====
-- Which messages belong to one conversation.
use mathlib.Core.List.{append_assoc}
use mathlib.Core.Path.{ap₂}
use k.Base.{
  ℕ, ◌≡◌, ◌⊎◌, ◌∙◌, refl, sym, ap, inl, inr, Bool-cases, true, false, [], ◌∷◌, ◌++◌, Str, codes,
  All, sort_strings, sort_strings_pair, join, arith, str_le, ◌==◌, head_eq, tail_eq,
  sort_strings_two,
}
use k.Constant.{single_chat_type, group_chat_type, super_group_chat_type}
use k.MsgProcessor.Options.{is_not_notification}
use k.MsgProcessor.Conversation.{
  Msg, underscore, get_chat_conversation_id_by_msg, get_conversation_id_by_msg, pair_id,
  get_conversation_id_by_session_type, bad_ids,
}

-- The reply to a message: sender and receiver change places.
abbrev pub reply : Msg → Msg
reply m = record m { send_id = m.recv_id; recv_id = m.send_id }

-- In a single chat a message and its reply have the same conversation, chat or notification.
pub single_chat_symmetric :
    (m : Msg)
    → m.session_type ≡ single_chat_type
    → get_conversation_id_by_msg (reply m) ≡ get_conversation_id_by_msg m
unfolding get_conversation_id_by_msg
single_chat_symmetric m h = rw (h, sort_strings_pair m.recv_id m.send_id) refl

abbrev NoUnderscore : Str → Type 0
NoUnderscore = All (λ c. (c == b'_') ≡ false)

not_underscore : (c : ℕ) → (c == b'_') ≡ false → c ≡ b'_' → ⊥
not_underscore c h e = ground arith

-- An underscore splits what is free of underscores in one way.
cut_underscore :
    (a b x y : Str)
    → NoUnderscore a
    → NoUnderscore b
    → a ++ underscore ++ x ≡ b ++ underscore ++ y
    → (a ≡ b) × (x ≡ y)
cut_underscore [] [] x y p q e = (refl, tail_eq e)
cut_underscore [] (c ∷ b) x y p q e = absurd (not_underscore c q.0 (sym (head_eq e)))
cut_underscore (c ∷ a) [] x y p q e = absurd (not_underscore c p.0 (head_eq e))
cut_underscore (c ∷ a) (d ∷ b) x y p q e =
    let (same, rest) = cut_underscore a b x y p.1 q.1 (tail_eq e) in
    (ap₂ ◌∷◌ (head_eq e) same, rest)

single_chat_name :
    (m : Msg)
    → m.session_type ≡ single_chat_type
    → get_chat_conversation_id_by_msg m ≡ codes "si_" ++ pair_id m
unfolding get_chat_conversation_id_by_msg
single_chat_name m h = rw h

strip : {x y : Str} → codes "si_" ++ x ≡ codes "si_" ++ y → x ≡ y
strip e = tail_eq (tail_eq (tail_eq e))

pair_le :
    (m : Msg) → str_le m.send_id m.recv_id ≡ true → pair_id m ≡ m.send_id ++ underscore ++ m.recv_id
unfolding join
pair_le m h = rw (sort_strings_two m.send_id m.recv_id, h)

pair_gt :
    (m : Msg)
    → str_le m.send_id m.recv_id ≡ false
    → pair_id m ≡ m.recv_id ++ underscore ++ m.send_id
unfolding join
pair_gt m h = rw (sort_strings_two m.send_id m.recv_id, h)

-- The two users of a single chat, in either order.
abbrev pub SamePair : Msg → Msg → Type 0
SamePair m n =
    ((m.send_id ≡ n.send_id) × (m.recv_id ≡ n.recv_id))
    ⊎ ((m.send_id ≡ n.recv_id) × (m.recv_id ≡ n.send_id))

-- Single chats of users whose names have no underscore have the same chat conversation only if they
-- are between the same two users.
pub single_chat_injective :
    (m n : Msg)
    → m.session_type ≡ single_chat_type
    → n.session_type ≡ single_chat_type
    → All
        (λ s. All (λ c. (c == b'_') ≡ false) s)
        (m.send_id ∷ m.recv_id ∷ n.send_id ∷ n.recv_id ∷ [])
    → get_chat_conversation_id_by_msg m ≡ get_chat_conversation_id_by_msg n
    → SamePair m n
unfolding get_chat_conversation_id_by_msg
single_chat_injective m n h k u e =
    let same = strip (sym (single_chat_name m h) ∙ e ∙ single_chat_name n k) in
    elim (Bool-cases (str_le m.send_id m.recv_id)) [
      | inl x ↦ elim (Bool-cases (str_le n.send_id n.recv_id)) [
        | inl y ↦ inl (
            cut_underscore m.send_id n.send_id _ _ u.0 u.1.1.0
              (sym (pair_le m x) ∙ same ∙ pair_le n y))
        | inr y ↦ inr (
            cut_underscore m.send_id n.recv_id _ _ u.0 u.1.1.1.0
              (sym (pair_le m x) ∙ same ∙ pair_gt n y))
      ]
      | inr x ↦ elim (Bool-cases (str_le n.send_id n.recv_id)) [
        | inl y ↦
            let (p, q) =
              cut_underscore m.recv_id n.send_id _ _ u.1.0 u.1.1.0
                (sym (pair_gt m x) ∙ same ∙ pair_le n y) in
            inr (q, p)
        | inr y ↦
            let (p, q) =
              cut_underscore m.recv_id n.recv_id _ _ u.1.0 u.1.1.1.0
                (sym (pair_gt m x) ∙ same ∙ pair_gt n y) in
            inl (q, p)
      ]
    ]

regroup :
    (a b c : Str)
    → a ++ underscore ++ b ++ underscore ++ c ≡ a ++ underscore ++ (b ++ underscore ++ c)
regroup a b c =
    append_assoc (a ++ underscore ++ b) underscore c
    ∙ append_assoc (a ++ underscore) b (underscore ++ c)
    ∙ ap (◌++◌ (a ++ underscore)) (sym (append_assoc b underscore c))

-- With underscores in the names two different pairs of users can share a conversation: the users
-- `a_b` and `c`, and the users `a` and `b_c`, where both pairs are in order.
pub single_chat_collision :
    (m n : Msg) (a b c : Str)
    → m.session_type ≡ single_chat_type
    → n.session_type ≡ single_chat_type
    → (m.send_id ≡ a ++ underscore ++ b) × (m.recv_id ≡ c)
    → (n.send_id ≡ a) × (n.recv_id ≡ b ++ underscore ++ c)
    → str_le m.send_id m.recv_id ≡ true
    → str_le n.send_id n.recv_id ≡ true
    → get_chat_conversation_id_by_msg m ≡ get_chat_conversation_id_by_msg n
unfolding get_chat_conversation_id_by_msg
single_chat_collision m n a b c h k (p, q) (r, s) l g =
    single_chat_name m h
    ∙ ap (◌++◌ (codes "si_")) (pair_le m l ∙ rw (p, q, r, s) (regroup a b c) ∙ sym (pair_le n g))
    ∙ sym (single_chat_name n k)

sort_strings_one : (a : Str) → sort_strings (a ∷ []) ≡ a ∷ []
unfolding sort_strings
sort_strings_one a = refl

good_pair : (a b : Str) → bad_ids (sort_strings (a ∷ b ∷ [])) ≡ false
good_pair a b = elim (Bool-cases (str_le a b)) [
  | inl e ↦ rw (sort_strings_two a b, e) refl
  | inr e ↦ rw (sort_strings_two a b, e) refl
]

-- The name that the message gives and the name that its session type and users give are one, for
-- single chats and super groups that are no notifications.
pub by_session_type_agrees :
    (m : Msg)
    → is_not_notification m.options ≡ true
    → (get_conversation_id_by_msg (record m { session_type = single_chat_type })
        ≡ get_conversation_id_by_session_type single_chat_type (m.send_id ∷ m.recv_id ∷ []))
      × (get_conversation_id_by_msg (record m { session_type = group_chat_type })
          ≡ get_conversation_id_by_session_type group_chat_type (m.group_id ∷ []))
      × (get_conversation_id_by_msg (record m { session_type = super_group_chat_type })
          ≡ get_conversation_id_by_session_type super_group_chat_type (m.group_id ∷ []))
unfolding get_conversation_id_by_msg get_conversation_id_by_session_type
by_session_type_agrees m h = (
  rw (h, good_pair m.send_id m.recv_id) refl,
  rw (h, sort_strings_one m.group_id) refl,
  rw (h, sort_strings_one m.group_id) refl,
)
