-- ===== src/MsgStore/Block.antt =====
-- pkg/common/db/controller/msg.go, `BatchInsertBlock`: a run of messages or of revocations is
-- written into the documents of a conversation, by updates of documents that exist and by creation
-- of those that do not. The collection of documents (`MsgDocModelInterface`, over a MongoDB
-- collection) is a parameter.
pub mod Laws
pub mod Termination
pub mod Frame
pub mod Filled
pub mod Stored
pub mod Marks
pub mod Once
use k.Base.{
  ℕ, zero, suc, ◌+◌, ◌*◌, ◌<◌, ◌==◌, Bool, true, false, if◌then◌else◌, Option, none, some, List, [],
  ◌∷◌, map, ltb, length, set, get_elem?, replicate, Str, str_eq, ℤ, pos, negsuc,
}
use k.MsgStore.Doc.{
  MsgDataModel, RevokeModel, MsgInfoModel, MsgDocModel, single_goc_msg_num, get_doc_id,
  get_msg_index,
}

-- A value of type `any`: nil, or a pointer of one of the two model types.
pub data Field : Type 0 where
  nil_any : Field
  msg_ptr : Option MsgDataModel → Field
  revoke_ptr : Option RevokeModel → Field

pub data UpdateKey : Type 0 where
  update_key_msg update_key_revoke other_key : UpdateKey

pub data UpdateReply : Type 0 where
  matched : Bool → UpdateReply
  update_failed : UpdateReply

pub data CreateReply : Type 0 where
  created duplicate_key create_failed : CreateReply

pub record MsgDocStore : Type 1 where
  pub Store : Type 0
  pub update_msg : Store → Str → ℤ → UpdateKey → Field → Store × UpdateReply
  pub create : Store → MsgDocModel → Store × CreateReply

pub data BlockError : Type 0 where
  seq_is_invalid key_is_invalid field_type_is_invalid store_error : BlockError
  -- a run-time panic: an index out of range or a failed type assertion
  panicked : BlockError

pub data BlockResult : Type 0 where
  done : BlockResult
  failed : BlockError → BlockResult
  out_of_fuel : BlockResult

check_msg : Option MsgDataModel → ℕ → Option BlockError
check_msg none seq = none
check_msg (some m) seq = if m.seq == seq then none else some seq_is_invalid

-- One round of the type check; `seq` is `firstSeq + i`.
check_field : UpdateKey → Field → ℕ → Option BlockError
unfolding check_msg
check_field update_key_msg (msg_ptr m) seq = check_msg m seq
check_field update_key_msg (revoke_ptr r) seq = some field_type_is_invalid
check_field update_key_msg nil_any seq = some field_type_is_invalid
check_field update_key_revoke (revoke_ptr r) seq = none
check_field update_key_revoke (msg_ptr m) seq = some field_type_is_invalid
check_field update_key_revoke nil_any seq = some field_type_is_invalid
check_field other_key f seq = some key_is_invalid

unfoldable pub check_fields : UpdateKey → List Field → ℕ → Option BlockError
unfolding check_field
check_fields key [] seq = none
check_fields key (f ∷ fs) seq =
    let rest = check_fields key fs (seq + 1) in
    elim (check_field key f seq) [ none ↦ rest | some e ↦ some e ]

abbrev pub blank : MsgInfoModel
blank = record { msg = none; revoke = none; del_list = []; is_read = false }

-- The element that the creating branch makes of a field; `none` is a failed type assertion.
unfoldable pub info_of : UpdateKey → Field → Option MsgInfoModel
info_of update_key_msg (msg_ptr m) = some (record blank { msg = m })
info_of update_key_revoke (revoke_ptr r) = some (record blank { revoke = r })
info_of _ _ = none

abbrev pub Slots : Type 0
Slots = List (Option MsgInfoModel)

-- `doc.Msg[index] = …`, which panics out of range.
unfoldable pub put_slot : Slots → ℤ → MsgInfoModel → Option Slots
put_slot ms (pos i) v = if ltb i (length ms) then some (set ms i (some v)) else none
put_slot ms (negsuc i) v = none

put_info : Slots → ℤ → Option MsgInfoModel → Option Slots
unfolding put_slot
put_info ms z none = none
put_info ms z (some v) = put_slot ms z v

-- What the loop over `j` leaves: the slots and the number of fields that they took.
unfoldable pub fill : UpdateKey → Str → Str → ℕ → List Field → Slots → ℕ → Option (Slots × ℕ)
unfolding put_info
fill key conv doc_id seq [] ms n = some (ms, n)
fill key conv doc_id seq (f ∷ fs) ms n =
    if str_eq (get_doc_id conv seq) doc_id
    then (elim (put_info ms (get_msg_index seq) (info_of key f)) [
      | none ↦ none
      | some ms' ↦ fill key conv doc_id (seq + 1) fs ms' (n + 1)
    ])
    else some (ms, n)

-- The loop over `doc.Msg`: an empty element in place of nil.
abbrev pub no_nil : Option MsgInfoModel → Option MsgInfoModel
no_nil none = some blank
no_nil (some i) = some i

-- The fields from position n on.
abbrev pub after {ℓ} : {A : Type ℓ} → ℕ → List A → List A
after zero xs = xs
after (suc n) [] = []
after (suc n) (x ∷ xs) = after n xs

abbrev pub empty_slots : Slots
empty_slots = replicate single_goc_msg_num none

module _ (db : MsgDocStore) (key : UpdateKey) (conv : Str) where
  open db use {Store, update_msg, create}

  -- What the rest of the loop does from a store, `tryUpdate`, `seq` and the fields from `i` on.
  abbrev pub Next : Type 0
  Next = Store → Bool → ℕ → List Field → Store × BlockResult

  created_with : Next → ℕ → List Field → ℕ → Store × CreateReply → Store × BlockResult
  created_with next seq fs n (s, created) = next s false (seq + n) (after n fs)
  created_with next seq fs n (s, duplicate_key) = next s true seq fs
  created_with next seq fs n (s, create_failed) = (s, failed store_error)

  create_filled : Next → Store → ℕ → List Field → Option (Slots × ℕ) → Store × BlockResult
  unfolding created_with
  create_filled next s seq fs none = (s, failed panicked)
  create_filled next s seq fs (some (ms, n)) =
      created_with next seq fs n
        (create s (record { doc_id = get_doc_id conv seq; msgs = map no_nil ms }))

  -- The second half of the loop's body: a document is made of the fields that belong to it.
  create_step : Next → Store → ℕ → List Field → Store × BlockResult
  unfolding create_filled
  create_step next s seq fs =
      create_filled next s seq fs (fill key conv (get_doc_id conv seq) seq fs empty_slots 0)

  updated_with : Next → ℕ → Field → List Field → Store × UpdateReply → Store × BlockResult
  unfolding create_step
  updated_with next seq f fs (s, matched true) = next s true (seq + 1) fs
  updated_with next seq f fs (s, matched false) = create_step next s seq (f ∷ fs)
  updated_with next seq f fs (s, update_failed) = (s, failed store_error)

  loop_body : Next → Store → Bool → ℕ → Field → List Field → Store × BlockResult
  unfolding updated_with
  loop_body next s true seq f fs =
      updated_with next seq f fs (update_msg s (get_doc_id conv seq) (get_msg_index seq) key f)
  loop_body next s false seq f fs = create_step next s seq (f ∷ fs)

  unfoldable pub block_loop : ℕ → Store → Bool → ℕ → List Field → Store × BlockResult
  unfolding loop_body
  block_loop zero s try_update seq fs = (s, out_of_fuel)
  block_loop (suc fuel) s try_update seq [] = (s, done)
  block_loop (suc fuel) s try_update seq (f ∷ fs) =
      loop_body (block_loop fuel) s try_update seq f fs

  -- Each field costs at most two rounds: one that finds its document already made, and one that
  -- writes it.
  unfoldable pub batch_insert_block : Store → List Field → ℕ → Store × BlockResult
  unfolding block_loop
  batch_insert_block s [] first_seq = (s, done)
  batch_insert_block s (f ∷ fs) first_seq = elim (check_fields key (f ∷ fs) first_seq) [
    | some e ↦ (s, failed e)
    | none ↦ block_loop (2 * length (f ∷ fs) + 2) s true first_seq (f ∷ fs)
  ]
