-- ===== src/MsgStore/Chat.antt =====
-- pkg/common/db/controller/msg.go: `BatchInsertChat2DB` and `RevokeMsg`, the two users of
-- `BatchInsertBlock`.
pub mod Laws
pub mod Reader
pub mod Revocation
use k.Base.{
  ℕ, zero, suc, ◌+◌, ◌*◌, ◌==◌, Bool, true, false, Option, none, some, List, [], ◌∷◌, map, Str,
}
use k.MsgStore.Doc.{RevokeModel}
use k.MsgStore.Convert.{MsgData, chat_model}
use k.MsgStore.Block.{
  Field, nil_any, msg_ptr, revoke_ptr, update_key_msg, update_key_revoke, MsgDocStore, BlockResult,
  done, failed, BlockError, panicked, batch_insert_block,
}

-- An element of `msgs`: a nil message leaves a nil `any`.
abbrev pub chat_field : Option MsgData → Field
chat_field none = nil_any
chat_field (some m) = msg_ptr (some (chat_model m))

-- The results of `BatchInsertChat2DB`: that of the block, or the refusal of an empty list.
pub data ChatResult : Type 0 where
  msg_list_is_empty : ChatResult
  block : BlockResult → ChatResult

module _ (db : MsgDocStore) (conv : Str) where
  open db use {Store}

  from_block : Store × BlockResult → Store × ChatResult
  from_block (s, r) = (s, block r)

  -- `msgList[0].Seq` panics where the first message is nil.
  unfoldable pub batch_insert_chat2db : Store → List (Option MsgData) → Store × ChatResult
  unfolding from_block
  batch_insert_chat2db s [] = (s, msg_list_is_empty)
  batch_insert_chat2db s (none ∷ ms) = (s, block (failed panicked))
  batch_insert_chat2db s (some m ∷ ms) =
      from_block (batch_insert_block db update_key_msg conv s (map chat_field (some m ∷ ms)) m.seq)

  unfoldable pub revoke_msg : Store → ℕ → RevokeModel → Store × BlockResult
  revoke_msg s seq revoke =
      batch_insert_block db update_key_revoke conv s (revoke_ptr (some revoke) ∷ []) seq
