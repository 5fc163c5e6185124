-- ===== src/Tests/Range.antt =====
-- Reads of a range, from a cache that misses one message, which the documents have.
use k.Base.{
  ◌≡◌, ◌==◌, refl, none, some, Option, [], ◌∷◌, arith, ℕ, ℤ, ℤ_dec, is_yes, if◌then◌else◌, Str,
  str_eq, codes,
}
use k.Tests.Store.{message}
use k.MsgStore.Doc.{MsgInfoModel, get_doc_id, get_msg_index}
use k.MsgStore.Convert.{MsgData, chat_model}
use k.MsgStore.Block.{blank}
use k.MsgStore.Range.{SeqMsg, Range, refill_loop}
use k.MsgStore.Range.Refill.{refill_loop_diverges}
use k.MsgStore.Reading.{Reader}

abbrev conv : Str
conv = codes "c"

abbrev shown : ℕ → SeqMsg
shown n = record { seq = n; body = [] }

abbrev cached : ℕ → Option MsgData
cached n = if n == 5 then none else some (message n)

-- The document has the fifth message.
abbrev stored : ℤ → Option MsgInfoModel
stored z =
    if is_yes (ℤ_dec z (get_msg_index 5))
    then some (record blank { msg = some (chat_model (message 5)) })
    else none

abbrev user : Reader
user = record {
  user = codes "b";
  revoke_content = λ r m. r.nickname;
  range_order = λ t. t;
  find_doc = λ d. if str_eq d (get_doc_id conv 5) then some stored else none;
}

abbrev range : Range
range = record { min_seq = 2; max_seq = 8; msgs = shown 5 ∷ shown 6 ∷ shown 8 ∷ shown 4 ∷ [] }

refill_loop_diverges_example : refill_loop 1000 (5 ∷ 6 ∷ []) 1 6 1 1 [] ≡ none
refill_loop_diverges_example =
    refill_loop_diverges 1000 (5 ∷ 6 ∷ []) 1 6 1 1 [] (omega arith) (omega arith) refl
