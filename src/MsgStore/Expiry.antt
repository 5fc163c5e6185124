-- ===== src/MsgStore/Expiry.antt =====
-- pkg/common/db/controller/msg.go, `DeleteConversationMsgsAndSetMinSeq` and `deleteMsgRecursion`:
-- old messages of one conversation are deleted, document by document from the oldest on, and the
-- least sequence number of the conversation is set. The collection and the cache are parameters;
-- the clock, which the source reads for each message, stands at `now` for the whole call, and
-- times are natural numbers.
pub mod Termination
pub mod Reset
pub mod Chosen
use k.Base.{
  Result, ok, err, ℕ, zero, suc, ◌+◌, ◌*◌, ◌==◌, ltb, Bool, true, false, if◌then◌else◌, Option,
  none, some, List, [], ◌∷◌, ◌++◌, get_elem?, Str, str_eq,
}
use k.MsgStore.Doc.{MsgDataModel, MsgInfoModel, MsgDocModel, last_msg}

-- The collection for one conversation. The recursion goes on after a failed
-- `DeleteMsgsInOneDocByIndex`, so that only what it leaves matters; every error of
-- `GetMsgDocModelByIndex` ends the recursion in the same way.
pub record DocDeletions : Type 1 where
  pub Store : Type 0
  pub get_msg_doc_model_by_index : Store → ℕ → Option MsgDocModel
  pub delete_msgs_in_one_doc_by_index : Store → Str → List ℕ → Store
  pub delete_docs : Store → List Str → Store × Bool

-- The cache for one conversation; a failure of the cleaning is only logged.
pub record MinSeqCache : Type 1 where
  pub Cache : Type 0
  pub clean_up_one_conversation_all_msg : Cache → Cache
  pub set_min_seq : Cache → ℕ → Cache × Bool

pub data ExpiryError : Type 0 where
  store_error cache_error : ExpiryError
  -- the access to the last message of an empty document, or to a nil pointer
  panicked : ExpiryError
  out_of_fuel : ExpiryError

pub record DelMsgRecursionStruct : Type 0 where
  pub min_seq : ℕ
  pub del_doc_ids : List Str

-- `SendTime + remainTime*1000 < now`
unfoldable pub expired : ℕ → ℕ → MsgDataModel → Bool
expired now remain m = ltb (m.send_time + remain * 1000) now

-- The message of a document's element, where neither pointer is nil.
unfoldable pub msg_of : Option MsgInfoModel → Option MsgDataModel
msg_of none = none
msg_of (some i) = i.msg

add_expired : ℕ → ℕ → ℕ → Option MsgDataModel → List ℕ → List ℕ
unfolding expired
add_expired now remain i none rest = rest
add_expired now remain i (some m) rest = if expired now remain m then i ∷ rest else rest

-- The loop that fills `delMsgIndexs`, from the index i on.
unfoldable pub expired_from : ℕ → ℕ → ℕ → List (Option MsgInfoModel) → List ℕ
unfolding add_expired msg_of
expired_from now remain i [] = []
expired_from now remain i (x ∷ xs) =
    add_expired now remain i (msg_of x) (expired_from now remain (i + 1) xs)

-- `delMsgIndexs[len(delMsgIndexs)-1]`, where the list is i followed by the rest.
unfoldable pub last_index : ℕ → List ℕ → ℕ
last_index i [] = i
last_index i (j ∷ js) = last_index j js

seq_of : Option MsgDataModel → Option ℕ
seq_of none = none
seq_of (some m) = some m.seq

seq_at : List (Option MsgInfoModel) → ℕ → Option ℕ
unfolding msg_of seq_of
seq_at xs i = elim (get_elem? xs i) [ none ↦ none | some x ↦ seq_of (msg_of x) ]

-- `IsFull` and the test of the last message: its number, if the whole document is to go.
unfoldable pub whole_document : ℕ → ℕ → MsgDocModel → Result ExpiryError (Option ℕ)
unfolding expired last_msg
whole_document now remain d = elim (last_msg d.msgs) [
  | none ↦ err panicked
  | some none ↦ ok none
  | some (some m) ↦ if expired now remain m then ok (some m.seq) else ok none
]

module _ (D : DocDeletions) (now remain : ℕ) where
  abbrev Answer : Type 0
  Answer = D.Store × Result ExpiryError DelMsgRecursionStruct

  -- The single messages of a document that are deleted.
  delete_in_document : D.Store → DelMsgRecursionStruct → MsgDocModel → List ℕ → Answer
  unfolding last_index seq_at
  delete_in_document s st d [] = (s, ok st)
  delete_in_document s st d (i ∷ is) =
      let s' = D.delete_msgs_in_one_doc_by_index s d.doc_id (i ∷ is) in
      elim (seq_at d.msgs (last_index i is)) [
        | none ↦ (s', err panicked)
        | some n ↦ (s', ok (record { min_seq = n; del_doc_ids = st.del_doc_ids }))
      ]

  -- What one round of the recursion does with its document.
  unfoldable pub one_document : D.Store → DelMsgRecursionStruct → MsgDocModel → Answer
  unfolding whole_document expired_from delete_in_document
  one_document s st d = elim (whole_document now remain d) [
    | err e ↦ (s, err e)
    | ok (some n) ↦ (s, ok (record { min_seq = n; del_doc_ids = st.del_doc_ids ++ d.doc_id ∷ [] }))
    | ok none ↦ delete_in_document s st d (expired_from now remain 0 d.msgs)
  ]

  -- The rounds up to the first index without a document.
  unfoldable pub walk : ℕ → D.Store → ℕ → DelMsgRecursionStruct → Answer
  unfolding one_document
  walk zero s index st = (s, err out_of_fuel)
  walk (suc fuel) s index st = elim (D.get_msg_doc_model_by_index s index) [
    | none ↦ (s, ok st)
    | some d ↦ elim (str_eq d.doc_id []) [
      | true ↦ (s, ok st)
      | false ↦
          let r = one_document s st d in
          elim r.1 [ err e ↦ (r.0, err e) | ok st' ↦ walk fuel r.0 (index + 1) st' ]
    ]
  ]

  unfoldable pub delete_msg_recursion :
      ℕ → D.Store → ℕ → DelMsgRecursionStruct → D.Store × Result ExpiryError ℕ
  unfolding walk
  delete_msg_recursion fuel s index st =
      let r = walk fuel s index st in
      elim r.1 [
        | err e ↦ (r.0, err e)
        | ok st' ↦
            let t = D.delete_docs r.0 st'.del_doc_ids in
            elim t.1 [ false ↦ (t.0, err store_error) | true ↦ (t.0, ok (st'.min_seq + 1)) ]
      ]

  module _ (C : MinSeqCache) where
    set_conversation_min_seq : C.Cache → ℕ → C.Cache × Result ExpiryError (Unit {0})
    set_conversation_min_seq c zero = (c, ok tt)
    set_conversation_min_seq c (suc n) =
        let t =
          C.set_min_seq (if remain == 0 then C.clean_up_one_conversation_all_msg c else c)
            (suc n) in
        (t.0, elim t.1 [ false ↦ err cache_error | true ↦ ok tt ])

    unfoldable pub delete_conversation_msgs_and_set_min_seq :
        ℕ → D.Store → C.Cache → D.Store × C.Cache × Result ExpiryError (Unit {0})
    unfolding delete_msg_recursion set_conversation_min_seq
    delete_conversation_msgs_and_set_min_seq fuel s c =
        let r = delete_msg_recursion fuel s 0 (record { min_seq = 0; del_doc_ids = [] }) in
        elim r.1 [
          | err e ↦ (r.0, c, err e)
          | ok n ↦ let t = set_conversation_min_seq c n in (r.0, t.0, t.1)
        ]
