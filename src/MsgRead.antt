-- ===== src/MsgRead.antt =====
-- internal/rpc/msg/as_read.go: how far a user has read a conversation. The numbers lie in Redis, the
-- marks of single messages in the documents; both are a parameter, with the services asked.
pub mod Laws
use k.Base.{
  ◌&&◌, ℕ, zero, suc, ◌+◌, ◌-◌, ◌==◌, ltb, Bool, true, false, ◌||◌, if◌then◌else◌, Option, none,
  some, List, [], ◌∷◌, Str, checked_at,
}
use k.Constant.{single_chat_type, super_group_chat_type, notification_chat_type}
use k.MsgStore.Range.{SeqReply, seq_is, seq_nil, seq_error, count_up}

-- Redis and the documents, by user and conversation; a write answers whether it succeeded.
pub record ReadStore : Type 1 where
  pub Store : Type 0
  -- none is any error of the read, a missing key too
  pub get_max_seq : Store → Str → Option ℕ
  pub get_has_read_seq : Store → Str → Str → SeqReply
  pub set_has_read_seq : Store → Str → Str → ℕ → Store × Bool
  pub mark_single_chat_msgs_as_read : Store → Str → Str → List ℕ → Store × Bool

-- The answers of the conversation service, which gives the type of a conversation, and of the
-- notification that ends each call.
pub record ReadServices : Type 0 where
  pub get_conversation : Str → Str → Option ℕ
  pub send_mark_as_read_notification : Str → Str → List ℕ → ℕ → Bool

pub data ReadError : Type 0 where
  args store_error conversation_error notification_error : ReadError

-- The last of the numbers `n ∷ ns`.
abbrev pub last_of : ℕ → List ℕ → ℕ
last_of n [] = n
last_of n (m ∷ ms) = last_of m ms

module _ (db : ReadStore) (services : ReadServices) where
  open db use {
    Store, get_max_seq, get_has_read_seq, set_has_read_seq, mark_single_chat_msgs_as_read,
  }

  abbrev pub ReadOutcome : Type 0
  ReadOutcome = Store × Option ReadError

  notify : Store → Str → Str → List ℕ → ℕ → ReadOutcome
  notify s user conv seqs has_read =
      if services.send_mark_as_read_notification user conv seqs has_read
      then (s, none)
      else (s, some notification_error)

  -- `if err = write; err != nil { return }`
  abbrev written : Store × Bool → (Store → ReadOutcome) → ReadOutcome
  written (s, true) next = next s
  written (s, false) next = (s, some store_error)

  -- A read that fails ends the call, but not where the key is missing: then it reads as 0.
  abbrev with_has_read : Store → SeqReply → (ℕ → ReadOutcome) → ReadOutcome
  with_has_read s (seq_is n) next = next n
  with_has_read s seq_nil next = next 0
  with_has_read s seq_error next = (s, some store_error)

  unfoldable pub set_conversation_has_read_seq : Store → Str → Str → ℕ → ReadOutcome
  unfolding notify
  set_conversation_has_read_seq s user conv has_read = elim (get_max_seq s conv) [
    | none ↦ (s, some store_error)
    | some max ↦
        if ltb max has_read
        then (s, some args)
        else written (set_has_read_seq s user conv has_read) (λ s'. notify s' user conv [] has_read)
  ]

  -- `if hasReadSeq > current { SetHasReadSeq }`, and what follows.
  raise : Store → Str → Str → ℕ → ℕ → (Store → ReadOutcome) → ReadOutcome
  raise s user conv has_read current next =
      if ltb current has_read then written (set_has_read_seq s user conv has_read) next else next s

  mark_below : Store → Str → Str → List ℕ → ℕ → ReadOutcome
  unfolding notify raise
  mark_below s user conv seqs has_read =
      written (mark_single_chat_msgs_as_read s user conv seqs) (λ s'.
        with_has_read s' (get_has_read_seq s' user conv) (λ current.
          raise s' user conv has_read current (λ s''. notify s'' user conv seqs has_read)))

  -- The last of the numbers is the one that counts.
  unfoldable pub mark_msgs_as_read : Store → Str → Str → List ℕ → ReadOutcome
  unfolding mark_below
  mark_msgs_as_read s user conv [] = (s, some args)
  mark_msgs_as_read s user conv (n ∷ ns) = elim (get_max_seq s conv) [
    | none ↦ (s, some store_error)
    | some max ↦
        if ltb max (last_of n ns)
        then (s, some args)
        else elim (services.get_conversation user conv) [
          | none ↦ (s, some conversation_error)
          | some kind ↦ mark_below s user conv (n ∷ ns) (last_of n ns)
        ]
  ]

  -- `if len(seqs) > 0 { MarkSingleChatMsgsAsRead }`
  mark_some : Store → Str → Str → List ℕ → (Store → ReadOutcome) → ReadOutcome
  mark_some s user conv [] next = next s
  mark_some s user conv (n ∷ ns) next =
      written (mark_single_chat_msgs_as_read s user conv (n ∷ ns)) next

  abbrev greater : ℕ → ℕ → ℕ
  greater a b = if ltb a b then b else a

  mark_kind : Store → Str → Str → ℕ → ℕ → ℕ → ReadOutcome
  unfolding notify raise mark_some
  mark_kind s user conv kind wanted has_read =
      if kind == single_chat_type
      then (let seqs = count_up (has_read + 1) (wanted - has_read) in
          mark_some s user conv seqs (λ s'.
            raise s' user conv wanted has_read
              (λ s''. notify s'' user conv seqs (greater has_read wanted))))
      else if (kind == super_group_chat_type) || (kind == notification_chat_type)
      then raise s user conv wanted has_read
          (λ s'. notify s' user conv [] (greater has_read wanted))
      else (s, none)

  unfoldable pub mark_conversation_as_read : Store → Str → Str → ℕ → ReadOutcome
  unfolding mark_kind
  mark_conversation_as_read s user conv wanted = elim (services.get_conversation user conv) [
    | none ↦ (s, some conversation_error)
    | some kind ↦
        with_has_read s (get_has_read_seq s user conv)
          (λ has_read. mark_kind s user conv kind wanted has_read)
  ]
