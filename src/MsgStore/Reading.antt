-- ===== src/MsgStore/Reading.antt =====
-- How stored messages are read: pkg/common/db/unrelation/msg.go, `GetMsgBySeqIndexIn1Doc`,
-- pkg/common/db/controller/msg.go, `findMsgInfoBySeq` and `getMsgBySeqsRange`, and
-- pkg/common/db/cache/msg.go, `GetMessagesBySeq`. What the database answers is a parameter: of each
-- document its elements, as `$arrayElemAt` takes them, and of each key of the cache its message.
pub mod Window
use k.Base.{
  ◌==◌, ℕ, ℤ, Bool, true, false, if◌then◌else◌, Option, none, some, List, [], ◌∷◌, ◌++◌, map, Str,
  contains,
}
use k.MsgStore.Doc.{
  MsgDataModel, RevokeModel, MsgInfoModel, get_msg_index, SeqsMap, get_doc_id_seqs_map,
}
use k.MsgStore.Convert.{MsgData, msg_db2pb}

-- The reader, the JSON of a revocation's notice, the order in which Go visits a map's entries, and the
-- elements of each document; none is a document that is not there, or another error.
pub record Reader : Type 0 where
  pub user : Str
  pub revoke_content : RevokeModel → MsgDataModel → Str
  pub range_order : SeqsMap → SeqsMap
  pub find_doc : Str → Option (ℤ → Option MsgInfoModel)

-- A revoked message is replaced by the notice.
unfoldable pub with_revoke :
    (RevokeModel → MsgDataModel → Str) → Option RevokeModel → MsgDataModel → MsgDataModel
with_revoke content none m = m
with_revoke content (some r) m = record m { content_type = 2101; content = content r m }

unfoldable pub with_read : Bool → MsgDataModel → MsgDataModel
with_read read m = if read then record m { is_read = true } else m

unfoldable pub seen_msg :
    (RevokeModel → MsgDataModel → Str) → MsgInfoModel → Option MsgDataModel → Option MsgDataModel
unfolding with_revoke with_read
seen_msg content i none = none
seen_msg content i (some m) = some (with_read i.is_read (with_revoke content i.revoke m))

-- What a user finds of an element: nothing where the user has deleted it or where it has no message.
unfoldable pub find_msg_info :
    (RevokeModel → MsgDataModel → Str) → Str → Option MsgInfoModel → Option MsgDataModel
unfolding seen_msg
find_msg_info content user none = none
find_msg_info content user (some i) =
    if contains user i.del_list then none else seen_msg content i i.msg

unfoldable pub add_found : Option MsgDataModel → List MsgDataModel → List MsgDataModel
add_found none ms = ms
add_found (some m) ms = m ∷ ms

module _ (r : Reader) where
  -- `findMsgInfoBySeq` of one document.
  unfoldable pub find_in_doc : (ℤ → Option MsgInfoModel) → List ℕ → List MsgDataModel
  unfolding add_found
  find_in_doc element [] = []
  find_in_doc element (seq ∷ seqs) =
      add_found (find_msg_info r.revoke_content r.user (element (get_msg_index seq)))
        (find_in_doc element seqs)

  -- The loop over the documents, which ends with the first error.
  unfoldable pub find_in_docs : SeqsMap → Option (List MsgData)
  find_in_docs [] = some []
  find_in_docs ((doc_id, seqs) ∷ t) =
      let rest = find_in_docs t in
      elim (r.find_doc doc_id) [
        | none ↦ none
        | some element ↦ elim rest [
          | none ↦ none
          | some ms ↦ some (map msg_db2pb (find_in_doc element seqs) ++ ms)
        ]
      ]

  unfoldable pub get_msg_by_seqs : Str → List ℕ → Option (List MsgData)
  get_msg_by_seqs conv seqs = find_in_docs (r.range_order (get_doc_id_seqs_map conv seqs))

-- A key without a message, or with one that cannot be decoded, and a deleted message, are missing.
add_cached : ℕ → Option MsgData → List MsgData × List ℕ → List MsgData × List ℕ
add_cached seq none got = (got.0, seq ∷ got.1)
add_cached seq (some m) got = if m.status == 4 then (got.0, seq ∷ got.1) else (m ∷ got.0, got.1)

unfoldable pub get_messages_by_seq : (ℕ → Option MsgData) → List ℕ → List MsgData × List ℕ
unfolding add_cached
get_messages_by_seq cached [] = ([], [])
get_messages_by_seq cached (seq ∷ seqs) =
    add_cached seq (cached seq) (get_messages_by_seq cached seqs)
