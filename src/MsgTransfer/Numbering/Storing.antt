-- ===== src/MsgTransfer/Numbering/Storing.antt =====
-- The numbered messages on their way into the documents.
use k.Base.{◌≡◌, ◌+◌, none, some, List, ◌∷◌, map, Str, arith}
use k.MsgStore.Doc.{MsgDataModel, RevokeModel}
use k.MsgStore.Convert.{MsgData}
use k.MsgStore.Block.{MsgDocStore, done}
use k.MsgStore.Block.Laws.{View, IsCollection, CreatesOne}
use k.MsgStore.Chat.{batch_insert_chat2db, block}
use k.MsgStore.Chat.Laws.{ReadBack, batch_insert_chat2db-ReadBack}
use k.MsgTransfer.Numbering.{MsgCache, number, insert_numbered, batch_insert_chat2cache}
use k.MsgTransfer.Numbering.Laws.{inserted_lem}

module _ (redis : MsgCache) (conv : Str) where
  open redis use {Cache}

  module _ (content : RevokeModel → MsgDataModel → Str) (user : Str) (db : MsgDocStore)
      (v : View db) (laws : IsCollection db v) (one : CreatesOne db v) where
    -- From the queue to the documents: where a batch is numbered without an error and the database
    -- accepts the messages, each is read back from the documents at the number that it got, in the
    -- order of the batch, from the number after the last one before: as it was, but revoked or deleted
    -- exactly as the element of its number was before, and read just where that was marked as read and
    -- the chat is a single one; an element of a document that was not there before has no mark.
    pub transferred-ReadBack :
        (c : Cache) (s : db.Store) (m : MsgData) (ms : List MsgData)
        → (batch_insert_chat2cache redis conv c (m ∷ ms)).error ≡ none
        → (batch_insert_chat2db db conv s
            (map some (batch_insert_chat2cache redis conv c (m ∷ ms)).msgs)).1
          ≡ block done
        → let r = batch_insert_chat2cache redis conv c (m ∷ ms) in
          ReadBack content user db v conv s
            (batch_insert_chat2db db conv s (map some r.msgs)).0
            (r.seq + 1)
            r.msgs
    unfolding insert_numbered number
    transferred-ReadBack c s m ms h k =
        let (n, is_new, e, same) = inserted_lem redis conv c (m ∷ ms) h in
        let k' = rw same at k in
        rw same (
          batch_insert_chat2db-ReadBack content user db v conv laws one s (record m { seq = n + 1 })
            (number (n + 1) ms) (omega arith) k')
