-- ===== src/MsgStore/Chat/Reader.antt =====
-- A user who reads one message of the collection: `getMsgBySeqsRange` on one sequence number.
use k.Base.{
  ◌≡◌, ◌∙◌, refl, ap, ℕ, ◌==◌, ◌&&◌, Bool, Bool-cases, inl, inr, true, false, if◌then◌else◌, Option,
  Option-cases, none, some, List, [], ◌∷◌, map, Str, contains, ℤ,
}
use k.Constant.{single_chat_type}
use k.MsgStore.Doc.{MsgDataModel, RevokeModel, MsgInfoModel, get_doc_id, get_msg_index}
use k.MsgStore.Doc.Places.{get_doc_id_seqs_map_one}
use k.MsgStore.Convert.{MsgData, chat_model, msg_db2pb, chat_model_read_back}
use k.MsgStore.Reading.{
  Reader, with_revoke, with_read, find_msg_info, add_found, seen_msg, find_in_doc, find_in_docs,
  get_msg_by_seqs,
}
use k.MsgStore.Block.{MsgDocStore}
use k.MsgStore.Block.Laws.{View}

-- The elements of a document of the store; a document that is not there is an error.
abbrev pub elements : Bool → (ℤ → Option MsgInfoModel) → Option (ℤ → Option MsgInfoModel)
elements true cell = some cell
elements false cell = none

module _ (content : RevokeModel → MsgDataModel → Str) (user : Str) where
  -- What the user reads of an element of a document.
  abbrev pub read_element : Option MsgInfoModel → List MsgData
  read_element o = map msg_db2pb (add_found (find_msg_info content user o) [])

  abbrev pub read_at : Bool → Option MsgInfoModel → Option (List MsgData)
  read_at true o = some (read_element o)
  read_at false o = none

  module _ (db : MsgDocStore) (v : View db) (conv : Str) where
    abbrev pub reader : db.Store → Reader
    reader s = record {
      user = user;
      revoke_content = content;
      range_order = λ t. t;
      find_doc = λ d. elements (v.has s d) (v.cell s d);
    }

    -- The user reads one message.
    abbrev pub read_msg : db.Store → ℕ → Option (List MsgData)
    read_msg s seq = get_msg_by_seqs (reader s) conv (seq ∷ [])

    in_one_doc :
        (s : db.Store) (d : Str) (seq : ℕ)
        → find_in_docs (reader s) ((d, seq ∷ []) ∷ [])
          ≡ read_at (v.has s d) (v.cell s d (get_msg_index seq))
    unfolding find_in_docs find_in_doc add_found
    in_one_doc s d seq = elim (Bool-cases (v.has s d)) [
      | inr x ↦ rw (find_in_docs, x) refl
      | inl x ↦ elim (Option-cases (find_msg_info content user (v.cell s d (get_msg_index seq)))) [
        | inl h ↦ rw (find_in_docs, x, find_in_doc, h) refl
        | inr (m, h) ↦ rw (find_in_docs, x, find_in_doc, h) refl
      ]
    ]

    pub read_msg-read_at :
        (s : db.Store) (seq : ℕ)
        → read_msg s seq
          ≡ read_at
              (v.has s (get_doc_id conv seq))
              (v.cell s (get_doc_id conv seq) (get_msg_index seq))
    unfolding get_msg_by_seqs
    read_msg-read_at s seq =
        ap (find_in_docs (reader s)) (get_doc_id_seqs_map_one conv seq)
        ∙ in_one_doc s (get_doc_id conv seq) seq

  -- A message as the notice of its revocation.
  abbrev pub notice : Option RevokeModel → MsgData → MsgData
  notice none m = m
  notice (some r) m = record m { content_type = 2101; content = content r (chat_model m) }

  -- What the user reads of a stored message whose element has the marks: nothing where the user has
  -- deleted it, else the message, or the notice of its revocation, read only by the mark of a
  -- single chat's.
  abbrev pub shown : MsgInfoModel → MsgData → List MsgData
  shown i m =
      if contains user i.del_list
      then []
      else record (notice i.revoke m) {
        is_read = i.is_read && (m.session_type == single_chat_type);
      }
        ∷ []

  msg_db2pb-shown :
      (b : Bool) (o : Option RevokeModel) (m : MsgData)
      → msg_db2pb (with_read b (with_revoke content o (chat_model m)))
        ≡ record (notice o m) { is_read = b && (m.session_type == single_chat_type) }
  unfolding msg_db2pb with_read with_revoke chat_model
  msg_db2pb-shown true none m = chat_model_read_back true m
  msg_db2pb-shown false none m = chat_model_read_back false m
  msg_db2pb-shown true (some r) m = chat_model_read_back true (notice (some r) m)
  msg_db2pb-shown false (some r) m = chat_model_read_back false (notice (some r) m)

  pub read_element-shown :
      (i : MsgInfoModel) (m : MsgData)
      → read_element (some (record i { msg = some (chat_model m) })) ≡ shown i m
  unfolding find_msg_info add_found seen_msg
  read_element-shown i m = elim (Bool-cases (contains user i.del_list)) [
    | inl x ↦ rw x refl
    | inr x ↦ rw x (ap (λ n. n ∷ []) (msg_db2pb-shown i.is_read i.revoke m))
  ]
