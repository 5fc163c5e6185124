-- ===== src/MsgStore/Reading/Window.antt =====
-- `GetMsgBySeqsRange` over the cache and the documents as they are read.
use k.Base.{◌≡◌, ℕ, ◌<◌, ℤ, Option, some, List, [], map, All, Str}
use k.MsgStore.Doc.{MsgDataModel, MsgInfoModel, SeqsMap, get_doc_id, get_msg_index}
use k.MsgStore.Doc.Places.{Groups}
use k.MsgStore.Convert.{MsgData, on_pointer}
use k.MsgStore.Range.{SeqMsg, Env, SeqReply, Range}
use k.MsgStore.Reading.{Reader, get_msg_by_seqs, get_messages_by_seq}

abbrev seq_msg : MsgData → SeqMsg
seq_msg m = record { seq = m.seq; body = [] }

-- What `GetMsgBySeqsRange` reads: three numbers and the user's deleted numbers, and the messages
-- of the cache and of the documents.
abbrev pub env_of :
    Reader → Str → (ℕ → Option MsgData) → SeqReply → SeqReply → SeqReply → Option (List ℕ) → Env
env_of r conv cached user_min conv_min top dels = record {
  conversation_user_min_seq = user_min;
  min_seq = conv_min;
  max_seq = top;
  get_messages_by_seq =
      λ ns. (map seq_msg (get_messages_by_seq cached ns).0, (get_messages_by_seq cached ns).1);
  get_user_del_list = dels;
  get_from_docs = λ ns. on_pointer (map seq_msg) (get_msg_by_seqs r conv ns);
}

-- The message under a number's key, and the one in a number's element, bear that number; and Go
-- visits no entry that the map has not.
pub record IsNumbered (r : Reader) (conv : Str) (cached : ℕ → Option MsgData) : Type 1 where
  pub cached_seq : (n : ℕ) (m : MsgData) → cached n ≡ some m → m.seq ≡ n
  pub stored_seq :
      (n : ℕ) (element : ℤ → Option MsgInfoModel) (i : MsgInfoModel) (m : MsgDataModel)
      → 0 < n
      → r.find_doc (get_doc_id conv n) ≡ some element
      → element (get_msg_index n) ≡ some i
      → i.msg ≡ some m
      → m.seq ≡ n
  pub visits : (P : Str → List ℕ → Type 0) (t : SeqsMap) → Groups P t → Groups P (r.range_order t)

abbrev AllSeqs : (ℕ → Type 0) → List MsgData → Type 0
AllSeqs P ms = All (λ m. P m.seq) (map seq_msg ms)
