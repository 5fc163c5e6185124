-- ===== src/MsgStore/Block/Frame.antt =====
-- The loop leaves every place of an existing document alone that no sequence number from `seq` on
-- has.
use k.Base.{
  ℕ, zero, suc, ◌+◌, ◌≤◌, ◌≡◌, ◌≢◌, ◌⊎◌, ◌∙◌, refl, inl, inr, Bool, true, false, List, [], ◌∷◌, Str,
  ℤ, arith, Option-cases,
}
use k.MsgStore.Doc.{get_doc_id, get_msg_index}
use k.MsgStore.Block.{
  Field, UpdateKey, UpdateReply, matched, update_failed, CreateReply, created, duplicate_key,
  create_failed, MsgDocStore, fill, empty_slots, after, Next, created_with, create_filled,
  create_step, updated_with, loop_body, block_loop,
}
use k.MsgStore.Block.Laws.{View, IsCollection}

module _ (db : MsgDocStore) (v : View db) (laws : IsCollection db v) (key : UpdateKey) (conv : Str)
    (e : Str) (y : ℤ) where
  open db use {Store, update_msg, create}

  abbrev pub Free : ℕ → Type 0
  Free seq = (m : ℕ) → seq ≤ m → (e ≢ get_doc_id conv m) ⊎ (y ≢ get_msg_index m)

  abbrev pub Kept : Store → Store → Type 0
  Kept s t = (v.has t e ≡ true) × (v.cell t e y ≡ v.cell s e y)

  Kept-trans : (s t u : Store) → Kept s t → Kept t u → Kept s u
  Kept-trans s t u p q = (q.0, q.1 ∙ p.1)

  abbrev Keeps : Next db key conv → Type 0
  Keeps next =
      (s : Store) (try : Bool) (seq : ℕ) (fs : List Field)
      → v.has s e ≡ true
      → Free seq
      → Kept s (next s try seq fs).0

  Free-mono : (m n : ℕ) → m ≤ n → Free m → Free n
  Free-mono m n h f k l = f k (omega arith)

  created-Keeps :
      (next : Next db key conv) (s : Store) (seq : ℕ) (fs : List Field) (n : ℕ)
      (r : Store × CreateReply)
      → Keeps next
      → Kept s r.0
      → Free seq
      → Kept s (created_with db key conv next seq fs n r).0
  unfolding created_with
  created-Keeps next s seq fs n (t, created) ih k f =
      Kept-trans s t _ k
        (ih t false (seq + n) (after n fs) k.0 (Free-mono seq (seq + n) (omega arith) f))
  created-Keeps next s seq fs n (t, duplicate_key) ih k f =
      Kept-trans s t _ k (ih t true seq fs k.0 f)
  created-Keeps next s seq fs n (t, create_failed) ih k f = k

  create-Keeps :
      (next : Next db key conv) (s : Store) (seq : ℕ) (fs : List Field)
      → Keeps next
      → v.has s e ≡ true
      → Free seq
      → Kept s (create_step db key conv next s seq fs).0
  unfolding create_step
  create-Keeps next s seq fs ih h f =
      elim (Option-cases (fill key conv (get_doc_id conv seq) seq fs empty_slots 0)) [
        | inl q ↦ rw (q, create_filled) (h, refl)
        | inr ((ms, n), q) ↦
            rw (q, create_filled)
              (created-Keeps next s seq fs n _ ih
                (laws.create_keeps_has s _ e h, laws.create_keeps_cell s _ e y h) f)
      ]

  updated-Keeps :
      (next : Next db key conv) (s : Store) (seq : ℕ) (f : Field) (fs : List Field)
      (r : Store × UpdateReply)
      → Keeps next
      → Kept s r.0
      → Free seq
      → Kept s (updated_with db key conv next seq f fs r).0
  unfolding updated_with
  updated-Keeps next s seq f fs (t, matched true) ih k free =
      Kept-trans s t _ k (ih t true (seq + 1) fs k.0 (Free-mono seq (seq + 1) (omega arith) free))
  updated-Keeps next s seq f fs (t, matched false) ih k free =
      Kept-trans s t _ k (create-Keeps next t seq (f ∷ fs) ih k.0 free)
  updated-Keeps next s seq f fs (t, update_failed) ih k free = k

  body-Keeps :
      (next : Next db key conv) (s : Store) (try : Bool) (seq : ℕ) (f : Field) (fs : List Field)
      → Keeps next
      → v.has s e ≡ true
      → Free seq
      → Kept s (loop_body db key conv next s try seq f fs).0
  unfolding loop_body
  body-Keeps next s true seq f fs ih h free =
      let d = get_doc_id conv seq in
      let z = get_msg_index seq in
      updated-Keeps next s seq f fs _ ih
        (
          laws.update_has s d z key f e ∙ h,
          laws.update_other s d z key f e y (free seq (omega arith)),
        )
        free
  body-Keeps next s false seq f fs ih h free = create-Keeps next s seq (f ∷ fs) ih h free

  pub loop-Keeps : (fuel : ℕ) → Keeps (block_loop db key conv fuel)
  unfolding block_loop
  loop-Keeps zero s try seq fs h f = (h, refl)
  loop-Keeps (suc fuel) s try seq [] h f = (h, refl)
  loop-Keeps (suc fuel) s try seq (x ∷ fs) h f =
      body-Keeps (block_loop db key conv fuel) s try seq x fs (loop-Keeps fuel) h f
