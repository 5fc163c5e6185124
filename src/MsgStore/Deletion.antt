-- ===== src/MsgStore/Deletion.antt =====
-- pkg/common/db/controller/msg.go, `DeleteMsgsPhysicalBySeqs` and `DeleteUserMsgsBySeqs`: messages are
-- deleted by their numbers, for all or for one user. The cache and the collection are a parameter, and
-- so is the order in which Go visits the entries of a map.
pub mod Laws
use k.Base.{ℕ, ℤ, Bool, true, false, if◌then◌else◌, Option, none, some, List, [], ◌∷◌, map, Str}
use k.MsgStore.Doc.{get_msg_index, SeqsMap, get_doc_id_seqs_map}

-- What the cache answers about some numbers: those that it holds, though a key may be missing.
pub data CacheReply : Type 0 where
  cached : List ℕ → CacheReply
  cache_error : CacheReply

-- A write answers whether it succeeded.
pub record DeletionStore : Type 1 where
  pub Store : Type 0
  pub delete_messages : Store → Str → List ℕ → Store × Bool
  pub get_messages_by_seq : Store → Str → List ℕ → CacheReply
  pub user_delete_msgs : Store → Str → List ℕ → Str → Store × Bool
  pub delete_msgs_in_one_doc_by_index : Store → Str → List ℤ → Store × Bool
  -- PushUnique to `del_list`
  pub push_unique : Store → Str → ℤ → Str → Store × Bool
  pub range_order : SeqsMap → SeqsMap

module _ (db : DeletionStore) where
  open db use {
    Store, delete_messages, get_messages_by_seq, user_delete_msgs, delete_msgs_in_one_doc_by_index,
    push_unique, range_order,
  }

  -- `if err != nil { return err }`
  abbrev and_then : Store × Bool → (Store → Store × Bool) → Store × Bool
  and_then (s, true) next = next s
  and_then (s, false) next = (s, false)

  unfoldable pub delete_docs : SeqsMap → Store → Store × Bool
  delete_docs [] s = (s, true)
  delete_docs ((doc_id, seqs) ∷ t) s =
      and_then (delete_msgs_in_one_doc_by_index s doc_id (map get_msg_index seqs)) (delete_docs t)

  unfoldable pub delete_msgs_physical_by_seqs : Store → Str → List ℕ → Store × Bool
  delete_msgs_physical_by_seqs s conv seqs =
      and_then (delete_messages s conv seqs)
        (delete_docs (range_order (get_doc_id_seqs_map conv seqs)))

  unfoldable pub push_seqs : Str → Str → List ℕ → Store → Store × Bool
  push_seqs doc_id user [] s = (s, true)
  push_seqs doc_id user (seq ∷ seqs) s =
      and_then (push_unique s doc_id (get_msg_index seq) user) (push_seqs doc_id user seqs)

  unfoldable pub push_docs : Str → SeqsMap → Store → Store × Bool
  push_docs user [] s = (s, true)
  push_docs user ((doc_id, seqs) ∷ t) s = and_then (push_seqs doc_id user seqs s) (push_docs user t)

  -- `if len(cachedMsgs) > 0 { UserDeleteMsgs }`
  delete_cached : Store → Str → Str → CacheReply → Store × Bool
  delete_cached s user conv cache_error = (s, false)
  delete_cached s user conv (cached []) = (s, true)
  delete_cached s user conv (cached (n ∷ ns)) = user_delete_msgs s conv (n ∷ ns) user

  unfoldable pub delete_user_msgs_by_seqs : Store → Str → Str → List ℕ → Store × Bool
  unfolding delete_cached
  delete_user_msgs_by_seqs s user conv seqs =
      and_then (delete_cached s user conv (get_messages_by_seq s conv seqs))
        (push_docs user (range_order (get_doc_id_seqs_map conv seqs)))
