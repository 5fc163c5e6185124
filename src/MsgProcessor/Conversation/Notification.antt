-- ===== src/MsgProcessor/Conversation/Notification.antt =====
-- The conversation of a message's notifications.
use mathlib.Core.List.{append_assoc, append-nil}
use k.Base.{
  ==→eq, ◌≡◌, ◌⊎◌, ◌∙◌, refl, sym, ap, inl, inr, Bool-cases, [], ◌∷◌, ◌++◌, Str, codes, join, split,
  arith, ◌==◌, split_from,
}
use k.MsgProcessor.Conversation.{
  Msg, underscore, get_chat_conversation_id_by_msg, get_conversation_id_by_msg,
  get_notification_conversation_id_by_msg, parse_conversation_id, is_notification,
  is_notification_by_msg, get_notification_conversation_id_by_conversation_id, rename_first,
  pair_id, ordered_id,
}

join-cons :
    (a part s : Str)
    → join underscore (a ∷ split_from b'_' part s)
      ≡ a ++ underscore ++ join underscore (split_from b'_' part s)
unfolding join split_from
join-cons a part [] = refl
join-cons a part (c ∷ s) = elim (Bool-cases (c == b'_')) [
  | inl e ↦ rw e refl
  | inr e ↦ rw e (join-cons a (part ++ c ∷ []) s)
]

-- Joining the parts of a split gives the text back.
join-split_from : (part s : Str) → join underscore (split_from b'_' part s) ≡ part ++ s
unfolding split_from join
join-split_from part [] = sym (append-nil part)
join-split_from part (c ∷ s) = elim (Bool-cases (c == b'_')) [
  | inl e ↦ rw e (
      join-cons part [] s
      ∙ rw (join-split_from [] s, ==→eq c b'_' e) (append_assoc part underscore s))
  | inr e ↦ rw e (join-split_from (part ++ c ∷ []) s ∙ append_assoc part (c ∷ []) s)
]

rename_first-split_from :
    (a part s : Str)
    → rename_first (a ∷ split_from b'_' part s)
      ≡ join underscore (codes "n" ∷ split_from b'_' part s)
unfolding rename_first split_from
rename_first-split_from a part [] = refl
rename_first-split_from a part (c ∷ s) = elim (Bool-cases (c == b'_')) [
  | inl e ↦ rw e refl
  | inr e ↦ rw e (rename_first-split_from a (part ++ c ∷ []) s)
]

-- What stands before the first underscore is replaced.
rename_first-cut : (a s : Str) → rename_first (a ∷ split_from b'_' [] s) ≡ codes "n_" ++ s
rename_first-cut a s =
    rename_first-split_from a [] s
    ∙ join-cons (codes "n") [] s
    ∙ ap (λ t. codes "n" ++ underscore ++ t) (join-split_from [] s)

-- A message of one of the four session types lies in a notification conversation exactly if its
-- options make it a notification.
is_notification-get_conversation_id_by_msg :
    (m : Msg)
    → (m.session_type ≡ 1) ⊎ (m.session_type ≡ 2) ⊎ (m.session_type ≡ 3) ⊎ (m.session_type ≡ 4)
    → is_notification (get_conversation_id_by_msg m) ≡ is_notification_by_msg m
unfolding is_notification get_conversation_id_by_msg is_notification_by_msg
is_notification-get_conversation_id_by_msg m h = ground arith

-- `ParseConversationID` agrees with the two functions that it joins, except on group chats, for which
-- it gives no name and never a notification.
pub parse_conversation_id_agrees :
    (m : Msg)
    → (m.session_type ≡ 1) ⊎ (m.session_type ≡ 3) ⊎ (m.session_type ≡ 4)
    → parse_conversation_id m ≡ (is_notification_by_msg m, get_conversation_id_by_msg m)
unfolding parse_conversation_id get_conversation_id_by_msg is_notification_by_msg
parse_conversation_id_agrees m h = ground arith

-- The notification conversation that belongs to the name of a chat is the one of its messages.
pub notification_of_chat :
    (m : Msg)
    → (m.session_type ≡ 1) ⊎ (m.session_type ≡ 2) ⊎ (m.session_type ≡ 3) ⊎ (m.session_type ≡ 4)
    → get_notification_conversation_id_by_conversation_id (get_chat_conversation_id_by_msg m)
      ≡ get_notification_conversation_id_by_msg m
unfolding get_notification_conversation_id_by_conversation_id get_chat_conversation_id_by_msg
    get_notification_conversation_id_by_msg split split_from rename_first
notification_of_chat m (inl h) = rw h (rename_first-cut (codes "si") (pair_id m))
notification_of_chat m (inr (inl h)) = rw h (rename_first-cut (codes "g") m.group_id)
notification_of_chat m (inr (inr (inl h))) = rw h (rename_first-cut (codes "sg") m.group_id)
notification_of_chat m (inr (inr (inr h))) = rw h (rename_first-cut (codes "sn") (ordered_id m))
