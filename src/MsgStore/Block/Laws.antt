-- ===== src/MsgStore/Block/Laws.antt =====
-- What the code relies on of the collection of documents, while nobody else writes to it.
use k.Base.{
  ◌≡◌, ◌≢◌, ◌⊎◌, Bool, true, false, Option, none, some, List, Str, ℤ, pos, negsuc, get_elem?,
}
use k.MsgStore.Doc.{MsgInfoModel, MsgDocModel}
use k.MsgStore.Block.{
  Field, msg_ptr, revoke_ptr, UpdateKey, update_key_msg, update_key_revoke, matched, update_failed,
  created, duplicate_key, MsgDocStore, blank,
}

-- `{"$set": {"msgs.<index>.<key>": value}}` on one element.
unfoldable pub put_field : UpdateKey → Field → MsgInfoModel → MsgInfoModel
put_field update_key_msg (msg_ptr m) i = record i { msg = m }
put_field update_key_revoke (revoke_ptr r) i = record i { revoke = r }
put_field _ _ i = i

abbrev pub or_blank : Option MsgInfoModel → MsgInfoModel
or_blank none = blank
or_blank (some i) = i

-- An element of a document that is created, by its index.
abbrev pub slot_at : List (Option MsgInfoModel) → ℤ → Option MsgInfoModel
slot_at ms (pos i) = elim (get_elem? ms i) [ none ↦ none | some o ↦ o ]
slot_at ms (negsuc i) = none

-- A view of a collection: which documents exist, and what lies at an index of one.
pub record View (db : MsgDocStore) : Type 0 where
  pub has : db.Store → Str → Bool
  pub cell : db.Store → Str → ℤ → Option MsgInfoModel

-- An update reaches a document exactly if it exists, a creation fails as a duplicate only if it
-- does, and both change what they name and nothing else. Either may fail in any other way.
pub record IsCollection (db : MsgDocStore) (v : View db) : Type 0 where
  pub update_has :
      (s : db.Store) (d : Str) (z : ℤ) (key : UpdateKey) (f : Field) (e : Str)
      → v.has (db.update_msg s d z key f).0 e ≡ v.has s e
  pub update_matched :
      (s : db.Store) (d : Str) (z : ℤ) (key : UpdateKey) (f : Field)
      → ((db.update_msg s d z key f).1 ≡ matched (v.has s d))
        ⊎ ((db.update_msg s d z key f).1 ≡ update_failed)
  pub update_cell :
      (s : db.Store) (d : Str) (z : ℤ) (key : UpdateKey) (f : Field)
      → (db.update_msg s d z key f).1 ≡ matched true
      → v.cell (db.update_msg s d z key f).0 d z ≡ some (put_field key f (or_blank (v.cell s d z)))
  pub update_other :
      (s : db.Store) (d : Str) (z : ℤ) (key : UpdateKey) (f : Field) (e : Str) (y : ℤ)
      → ((e ≢ d) ⊎ (y ≢ z))
      → v.cell (db.update_msg s d z key f).0 e y ≡ v.cell s e y
  pub create_duplicate :
      (s : db.Store) (doc : MsgDocModel)
      → (db.create s doc).1 ≡ duplicate_key
      → v.has s doc.doc_id ≡ true
  pub create_created :
      (s : db.Store) (doc : MsgDocModel)
      → (db.create s doc).1 ≡ created
      → v.has s doc.doc_id ≡ false
  pub create_has :
      (s : db.Store) (doc : MsgDocModel)
      → (db.create s doc).1 ≡ created
      → v.has (db.create s doc).0 doc.doc_id ≡ true
  pub create_cell :
      (s : db.Store) (doc : MsgDocModel) (z : ℤ)
      → (db.create s doc).1 ≡ created
      → v.cell (db.create s doc).0 doc.doc_id z ≡ slot_at doc.msgs z
  -- Of another document, and of this one where it was there before, a creation keeps everything.
  pub create_keeps_has :
      (s : db.Store) (doc : MsgDocModel) (e : Str)
      → v.has s e ≡ true
      → v.has (db.create s doc).0 e ≡ true
  pub create_keeps_cell :
      (s : db.Store) (doc : MsgDocModel) (e : Str) (y : ℤ)
      → v.has s e ≡ true
      → v.cell (db.create s doc).0 e y ≡ v.cell s e y

-- A creation makes no document but the one that it names.
pub record CreatesOne (db : MsgDocStore) (v : View db) : Type 0 where
  pub create_other :
      (s : db.Store) (doc : MsgDocModel) (e : Str)
      → e ≢ doc.doc_id
      → v.has (db.create s doc).0 e ≡ v.has s e
