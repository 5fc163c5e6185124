-- ===== src/MsgStore/Chat/Laws.antt =====
-- What a user reads of stored messages and of revocations.
use k.Base.{
  subst, ap, ℕ, ◌+◌, ◌<◌, ◌≡◌, ◌∙◌, refl, sym, inl, inr, Bool, Bool-cases, true, false, Option,
  none, some, List, [], ◌∷◌, Str, map, ℤ,
}
use k.MsgStore.Doc.{MsgInfoModel, MsgDataModel, RevokeModel, get_doc_id, get_msg_index}
use k.MsgStore.Convert.{MsgData, chat_model}
use k.MsgStore.Block.{
  MsgDocStore, BlockResult, blank, done, update_key_msg, msg_ptr, batch_insert_block, Field,
}
use k.MsgStore.Block.Laws.{View, IsCollection, CreatesOne}
use k.MsgStore.Block.Stored.{read, Stored, batch_insert_block-Stored}
use k.MsgStore.Block.Marks.{marks, HasMarks, batch_insert_block-HasMarks}
use k.MsgStore.Chat.{block, chat_field, batch_insert_chat2db, from_block}
use k.MsgStore.Chat.Reader.{
  read_element, read_at, read_msg, shown, read_msg-read_at, read_element-shown,
}

msg_ptr_inv :
    {a b : Option MsgDataModel}
    → ◌≡◌ {A = Option Field} (some (msg_ptr a)) (some (msg_ptr b))
    → a ≡ b
msg_ptr_inv h = cc

from_block-store :
    (db : MsgDocStore) (conv : Str) (x : db.Store × BlockResult) → (from_block db conv x).0 ≡ x.0
unfolding from_block
from_block-store db conv (s, r) = refl

from_block-done :
    (db : MsgDocStore) (conv : Str) (x : db.Store × BlockResult)
    → (from_block db conv x).1 ≡ block done
    → x.1 ≡ done
unfolding from_block
from_block-done db conv (s, r) h = cc

-- The element that holds a message and has the marks.
found_element :
    (o : Option MsgInfoModel) (m : MsgDataModel) (μ : MsgInfoModel)
    → read update_key_msg o ≡ some (msg_ptr (some m))
    → marks o ≡ μ
    → o ≡ some (record μ { msg = some m })
unfolding read
found_element none m μ h k = cc
found_element (some i) m μ h k =
    ap (λ x. some (record i { msg = x })) (msg_ptr_inv h)
    ∙ ap (λ (x : MsgInfoModel). some (record x { msg = some m })) k

-- The marks of an element before: one that is not there has none.
abbrev pub marks_at : Bool → Option MsgInfoModel → MsgInfoModel
marks_at true o = marks o
marks_at false o = blank

module _ (content : RevokeModel → MsgDataModel → Str) (user : Str) (db : MsgDocStore) (v : View db)
    (conv : Str) where
  open db use {Store}

  abbrev pub marks_before : Store → ℕ → MsgInfoModel
  marks_before s seq =
      marks_at (v.has s (get_doc_id conv seq)) (v.cell s (get_doc_id conv seq) (get_msg_index seq))

  -- From consecutive sequence numbers on, the user reads in the store t the messages of a list, with
  -- the marks that the elements have in the store s.
  abbrev pub ReadBack : Store → Store → ℕ → List MsgData → Type 0
  ReadBack s t seq [] = Unit
  ReadBack s t seq (m ∷ ms) =
      (read_msg content user db v conv t seq ≡ some (shown content user (marks_before s seq) m))
      × ReadBack s t (seq + 1) ms

  module _ (laws : IsCollection db v) (one : CreatesOne db v) where
    before-HasMarks :
        (s : Store) (d : Str) (z : ℤ)
        → HasMarks db v laws one conv d z (marks_at (v.has s d) (v.cell s d z)) s
    before-HasMarks s d z = elim (Bool-cases (v.has s d)) [
      | inl x ↦ inl (x, rw x refl)
      | inr x ↦ inr (x, rw x refl)
    ]

    HasMarks-marks :
        (s : Store) (d : Str) (z : ℤ) (μ : MsgInfoModel)
        → HasMarks db v laws one conv d z μ s
        → v.has s d ≡ true
        → marks (v.cell s d z) ≡ μ
    HasMarks-marks s d z μ (inl (a, b)) h = b
    HasMarks-marks s d z μ (inr (a, b)) h = cc

    Stored-ReadBack :
        (s t : Store) (seq : ℕ) (ms : List MsgData)
        → ((d : Str) (z : ℤ)
            → HasMarks db v laws one conv d z (marks_at (v.has s d) (v.cell s d z)) t)
        → Stored db v laws update_key_msg conv t seq (map chat_field (map some ms))
        → ReadBack s t seq ms
    Stored-ReadBack s t seq [] k h = tt
    Stored-ReadBack s t seq (m ∷ ms) k ((there, at), h) =
        let d = get_doc_id conv seq in
        let z = get_msg_index seq in
        let o = found_element _ (chat_model m) _ at (HasMarks-marks t d z _ (k d z) there) in
        (
          read_msg-read_at content user db v conv t seq
              ∙ ap (λ b. read_at content user b (v.cell t d z)) there
              ∙ ap (λ x. some (read_element content user x)) o
              ∙ ap some (read_element-shown content user (marks_before s seq) m),
          Stored-ReadBack s t (seq + 1) ms k h,
        )

    -- A list of messages that `BatchInsertChat2DB` accepts, the first with a sequence number from 1 on,
    -- is read back from the documents from there on in the order of the list, by any user: each message
    -- as it was, but revoked or deleted exactly as the element of its number was before, and read just
    -- where that was marked as read and the chat is a single one; an element of a document that was not
    -- there before has no mark.
    pub batch_insert_chat2db-ReadBack :
        (s : Store) (m : MsgData) (ms : List MsgData)
        → 0 < m.seq
        → (batch_insert_chat2db db conv s (map some (m ∷ ms))).1 ≡ block done
        → ReadBack s (batch_insert_chat2db db conv s (map some (m ∷ ms))).0 m.seq (m ∷ ms)
    unfolding batch_insert_chat2db from_block
    batch_insert_chat2db-ReadBack s m ms p e =
        let fs = map chat_field (map some (m ∷ ms)) in
        let t = batch_insert_block db update_key_msg conv s fs m.seq in
        let finished = from_block-done db conv t e in
        subst (λ u. ReadBack s u m.seq (m ∷ ms)) (sym (from_block-store db conv t))
          (Stored-ReadBack s t.0 m.seq (m ∷ ms)
            (λ d z.
              batch_insert_block-HasMarks db v laws one conv d z _ s fs m.seq
                (before-HasMarks s d z) finished)
            (batch_insert_block-Stored db v laws update_key_msg conv s fs m.seq p finished))
