-- ===== src/MsgStore/Block/Once.antt =====
-- `BatchInsertBlock` on one revocation whose document is there: one update.
use k.Base.{ℕ, suc, ◌≡◌, ◌⊎◌, inl, inr, refl, subst, true, false, some, [], ◌∷◌, Str}
use k.MsgStore.Doc.{RevokeModel, get_doc_id, get_msg_index}
use k.MsgStore.Block.{
  Field, UpdateKey, update_key_revoke, revoke_ptr, UpdateReply, matched, update_failed, MsgDocStore,
  done, updated_with, loop_body, block_loop, check_fields, batch_insert_block,
}
use k.MsgStore.Block.Laws.{View, IsCollection}

module _ (db : MsgDocStore) (key : UpdateKey) (conv : Str) where
  open db use {Store, update_msg}

  updated_once :
      (fuel seq : ℕ) (f : Field) (r : Store × UpdateReply)
      → ((r.1 ≡ matched true) ⊎ (r.1 ≡ update_failed))
      → let t = updated_with db key conv (block_loop db key conv (suc fuel)) seq f [] r in
        t.1 ≡ done → (t.0 ≡ r.0) × (r.1 ≡ matched true)
  unfolding updated_with block_loop
  updated_once fuel seq f (s, matched true) k e = (refl, refl)
  updated_once fuel seq f (s, matched false) (inl k) e = cc
  updated_once fuel seq f (s, matched false) (inr k) e = cc
  updated_once fuel seq f (s, update_failed) k e = cc

module _ (db : MsgDocStore) (v : View db) (laws : IsCollection db v) (conv : Str) where
  open db use {Store, update_msg}

  -- Where the document is there, a revocation that succeeds is one update that matches.
  pub batch_insert_block_once :
      (s : Store) (seq : ℕ) (r : RevokeModel)
      → v.has s (get_doc_id conv seq) ≡ true
      → let f = revoke_ptr (some r) in
        let t = batch_insert_block db update_key_revoke conv s (f ∷ []) seq in
        let u = update_msg s (get_doc_id conv seq) (get_msg_index seq) update_key_revoke f in
        t.1 ≡ done → (t.0 ≡ u.0) × (u.1 ≡ matched true)
  unfolding batch_insert_block check_fields block_loop loop_body
  batch_insert_block_once s seq r h =
      let d = get_doc_id conv seq in
      let z = get_msg_index seq in
      let f = revoke_ptr (some r) in
      let reply =
        subst
          (λ b.
            ((update_msg s d z update_key_revoke f).1 ≡ matched b)
            ⊎ ((update_msg s d z update_key_revoke f).1 ≡ update_failed))
          h (laws.update_matched s d z update_key_revoke f) in
      updated_once db update_key_revoke conv 2 seq f (update_msg s d z update_key_revoke f) reply
