-- ===== src/MsgTransfer/Numbering.antt =====
-- pkg/common/db/controller/msg.go, `BatchInsertChat2Cache`, and the loop of
-- pkg/common/db/cache/msg.go, `SetMessageToCache`: the messages of a conversation get their sequence
-- numbers. Redis is a parameter; the metrics are left out.
pub mod Laws
pub mod Storing
use k.Base.{
  ℕ, zero, suc, ◌+◌, ltb, Bool, true, false, if◌then◌else◌, Option, none, some, List, [], ◌∷◌,
  length, Str, str_dec, store,
}
use k.MsgStore.Doc.{single_goc_msg_num}
use k.MsgStore.Convert.{MsgData}
use k.MsgStore.Range.{SeqReply, seq_is, seq_nil, seq_error}

-- Redis for the messages: the operations on a conversation, each with its success.
pub record MsgCache : Type 1 where
  pub Cache : Type 0
  pub get_max_seq : Cache → Str → SeqReply
  -- the marshalling of a message and its writing under its sequence number
  pub set_message : Cache → Str → MsgData → Cache × Bool
  pub set_max_seq : Cache → Str → ℕ → Cache × Bool
  pub set_has_read_seqs : Cache → Str → List (Str × ℕ) → Cache × Bool

pub data InsertError : Type 0 where
  get_max_seq_error too_large too_short set_max_seq_error : InsertError

-- The loop that numbers the messages after `seq`.
unfoldable pub number : ℕ → List MsgData → List MsgData
number seq [] = []
number seq (m ∷ ms) = record m { seq = seq + 1 } ∷ number (seq + 1) ms

-- `userSeqMap`: the last number of each sender.
unfoldable pub user_seq_map : List MsgData → List (Str × ℕ) → List (Str × ℕ)
user_seq_map [] t = t
user_seq_map (m ∷ ms) t = user_seq_map ms (store str_dec m.send_id m.seq t)

module _ (redis : MsgCache) where
  open redis use {Cache}

  -- What the call leaves in the cache and in its messages, and its answer.
  pub record Inserted : Type 0 where
    pub cache : Cache
    pub msgs : List MsgData
    pub seq : ℕ
    pub is_new : Bool
    pub error : Option InsertError

  abbrev refused : Cache → List MsgData → InsertError → Inserted
  refused c ms e = record { cache = c; msgs = ms; seq = 0; is_new = false; error = some e }

module _ (redis : MsgCache) (conv : Str) where
  open redis use {Cache, get_max_seq, set_message, set_max_seq, set_has_read_seqs}

  -- SetMessageToCache ends with the first message that cannot be written.
  unfoldable pub set_message_to_cache : Cache → List MsgData → Cache × Bool
  set_message_to_cache c [] = (c, true)
  set_message_to_cache c (m ∷ ms) =
      let t = set_message c conv m in
      elim t.1 [ true ↦ set_message_to_cache t.0 ms | false ↦ (t.0, false) ]

  -- The writes, whose errors but that of SetMaxSeq are only logged.
  unfoldable pub insert_numbered : Cache → List MsgData → ℕ → Bool → Inserted redis
  unfolding set_message_to_cache
  insert_numbered c ms last is_new =
      let numbered = number last ms in
      let written = set_message_to_cache c numbered in
      let counted = set_max_seq written.0 conv (last + length ms) in
      record {
        cache = (set_has_read_seqs counted.0 conv (user_seq_map numbered [])).0;
        msgs = numbered;
        seq = last;
        is_new = is_new;
        error = if counted.1 then none else some set_max_seq_error;
      }

  unfoldable pub insert_after : Cache → List MsgData → ℕ → Bool → Inserted redis
  unfolding insert_numbered
  insert_after c ms last is_new =
      if ltb single_goc_msg_num (length ms)
      then refused redis c ms too_large
      else if ltb (length ms) 1
      then refused redis c ms too_short
      else insert_numbered c ms last is_new

  -- A conversation without a number is new, and begins at 0.
  unfoldable pub batch_insert_chat2cache : Cache → List MsgData → Inserted redis
  unfolding insert_after
  batch_insert_chat2cache c ms = elim (get_max_seq c conv) [
    | seq_is n ↦ insert_after c ms n false
    | seq_nil ↦ insert_after c ms 0 true
    | seq_error ↦ refused redis c ms get_max_seq_error
  ]
