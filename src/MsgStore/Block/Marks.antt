-- ===== src/MsgStore/Block/Marks.antt =====
-- What `BatchInsertBlock` leaves of the marks of an element, its revocation, deletions and read mark,
-- where it writes messages.
use k.Base.{
  ap, subst, some_eq, sym, refl, ℕ, zero, suc, ◌+◌, ◌≡◌, ◌∙◌, ◌⊎◌, ◌≢◌, inl, inr, Bool, true, false,
  Option, none, some, List, [], ◌∷◌, map, set, replicate, All, Str, str_dec, ℤ, ℤ_dec, pos, negsuc,
  arith, Option-cases,
}
use k.MsgStore.Doc.{MsgInfoModel, MsgDocModel, single_goc_msg_num, get_doc_id, get_msg_index}
use k.MsgStore.Block.{
  Field, msg_ptr, update_key_msg, UpdateReply, matched, update_failed, CreateReply, created,
  duplicate_key, create_failed, MsgDocStore, blank, Slots, fill, put_slot, info_of, no_nil,
  empty_slots, after, BlockResult, done, Next, created_with, create_filled, create_step,
  updated_with, loop_body, block_loop, check_fields, batch_insert_block,
}
use k.MsgStore.Block.Laws.{View, IsCollection, CreatesOne, put_field, or_blank, slot_at}
use k.MsgStore.Block.Filled.{fill-Round}
use k.MsgStore.Block.Stored.{batch_checked, batch_refused, failed-ne-done}

-- An element without its message; one that is not there has no marks.
abbrev pub marks : Option MsgInfoModel → MsgInfoModel
marks none = blank
marks (some i) = record i { msg = none }

marks-put_field :
    (f : Field) (o : Option MsgInfoModel)
    → marks (some (put_field update_key_msg f (or_blank o))) ≡ marks o
unfolding put_field
marks-put_field (msg_ptr m) none = refl
marks-put_field (msg_ptr m) (some i) = refl
marks-put_field f none = refl
marks-put_field f (some i) = refl

marks-info_of :
    (f : Field) (i : MsgInfoModel) → info_of update_key_msg f ≡ some i → marks (some i) ≡ blank
unfolding info_of
marks-info_of (msg_ptr m) i h = ap marks (sym h)
marks-info_of f i h = cc

abbrev Unmarked : Slots → Type 0
Unmarked ms = All (λ o. marks o ≡ blank) ms

set-Unmarked :
    (ms : Slots) (k : ℕ) (o : Option MsgInfoModel)
    → marks o ≡ blank
    → Unmarked ms
    → Unmarked (set ms k o)
set-Unmarked [] k o h a = tt
set-Unmarked (m ∷ ms) zero o h a = (h, a.1)
set-Unmarked (m ∷ ms) (suc k) o h a = (a.0, set-Unmarked ms k o h a.1)

put_slot-Unmarked :
    (ms ms' : Slots) (z : ℤ) (i : MsgInfoModel)
    → put_slot ms z i ≡ some ms'
    → marks (some i) ≡ blank
    → Unmarked ms
    → Unmarked ms'
unfolding put_slot
put_slot-Unmarked ms ms' (pos k) i e h a = ground (arith, set-Unmarked ms k (some i) h a)
put_slot-Unmarked ms ms' (negsuc k) i e h a = cc

fill-Unmarked :
    (conv d : Str) (fs : List Field) (seq : ℕ) (ms : Slots) (n : ℕ) (r : Slots × ℕ)
    → fill update_key_msg conv d seq fs ms n ≡ some r
    → Unmarked ms
    → Unmarked r.0
unfolding fill
fill-Unmarked conv d [] seq ms n r h a = subst (λ (t : Slots × ℕ). Unmarked t.0) (some_eq h) a
fill-Unmarked conv d (f ∷ fs) seq ms n r h a =
    elim (fill-Round update_key_msg conv d seq f fs ms n r h) [
      | inl e ↦ subst (λ (t : Slots × ℕ). Unmarked t.0) (sym e) a
      | inr (e, i, b, ms', c, rest) ↦
          fill-Unmarked conv d fs (seq + 1) ms' (n + 1) r rest
            (put_slot-Unmarked ms ms' (get_msg_index seq) i c (marks-info_of f i b) a)
    ]

empty_slots-Unmarked : (n : ℕ) → Unmarked (replicate n none)
empty_slots-Unmarked zero = tt
empty_slots-Unmarked (suc n) = (refl, empty_slots-Unmarked n)

slot_at-Unmarked : (ms : Slots) (z : ℤ) → Unmarked ms → marks (slot_at (map no_nil ms) z) ≡ blank
slot_at-Unmarked ms (negsuc k) a = refl
slot_at-Unmarked [] (pos k) a = refl
slot_at-Unmarked (none ∷ ms) (pos zero) a = refl
slot_at-Unmarked (some i ∷ ms) (pos zero) a = a.0
slot_at-Unmarked (m ∷ ms) (pos (suc k)) a = slot_at-Unmarked ms (pos k) a.1

matched_true :
    {r : UpdateReply} {b c : Bool}
    → r ≡ matched b
    → ((r ≡ matched c) ⊎ (r ≡ update_failed))
    → c ≡ true
    → r ≡ matched true
matched_true h (inl k) l = cc
matched_true h (inr k) l = cc

module _ (db : MsgDocStore) (v : View db) (laws : IsCollection db v) (one : CreatesOne db v)
    (conv : Str) (e : Str) (y : ℤ) (μ : MsgInfoModel) where
  open db use {Store, update_msg, create}

  -- Where the document is there, the element has the marks μ; where it is not, μ has none.
  abbrev pub HasMarks : Store → Type 0
  HasMarks s =
      ((v.has s e ≡ true) × (marks (v.cell s e y) ≡ μ)) ⊎ ((v.has s e ≡ false) × (blank ≡ μ))

  update-HasMarks :
      (s : Store) (d : Str) (z : ℤ) (f : Field) (b : Bool)
      → (update_msg s d z update_key_msg f).1 ≡ matched b
      → HasMarks s
      → HasMarks (update_msg s d z update_key_msg f).0
  update-HasMarks s d z f b h (inr (a, m)) = inr (laws.update_has s d z update_key_msg f e ∙ a, m)
  update-HasMarks s d z f b h (inl (a, m)) =
      let r = update_msg s d z update_key_msg f in
      let keeps =
        λ (o : (e ≢ d) ⊎ (y ≢ z)). ap marks (laws.update_other s d z update_key_msg f e y o) ∙ m in
      inl (
        laws.update_has s d z update_key_msg f e ∙ a,
        elim (str_dec e d) [
          | no n ↦ keeps (inl n)
          | yes p ↦ elim (ℤ_dec y z) [
            | no n ↦ keeps (inr n)
            | yes q ↦
                let there = subst (λ x. v.has s x ≡ true) p a in
                let found = matched_true h (laws.update_matched s d z update_key_msg f) there in
                subst (λ x. marks (v.cell r.0 x y) ≡ μ) (sym p)
                  (subst (λ x. marks (v.cell r.0 d x) ≡ μ) (sym q)
                    (ap marks (laws.update_cell s d z update_key_msg f found)
                      ∙ marks-put_field f (v.cell s d z)
                      ∙ subst (λ x. marks (v.cell s d x) ≡ μ) q
                          (subst (λ x. marks (v.cell s x y) ≡ μ) p m)))
          ]
        ],
      )

  create-HasMarks :
      (s : Store) (doc : MsgDocModel)
      → ((z : ℤ) → marks (slot_at doc.msgs z) ≡ blank)
      → (((create s doc).1 ≡ created) ⊎ ((create s doc).1 ≡ duplicate_key))
      → HasMarks s
      → HasMarks (create s doc).0
  create-HasMarks s doc unmarked k (inl (a, m)) =
      inl (laws.create_keeps_has s doc e a, ap marks (laws.create_keeps_cell s doc e y a) ∙ m)
  create-HasMarks s doc unmarked k (inr (a, m)) = elim (str_dec e doc.doc_id) [
    | no n ↦ inr (one.create_other s doc e n ∙ a, m)
    | yes p ↦ elim k [
      | inl c ↦ inl (
        subst (λ x. v.has (create s doc).0 x ≡ true) (sym p) (laws.create_has s doc c),
        subst (λ x. marks (v.cell (create s doc).0 x y) ≡ μ) (sym p)
            (ap marks (laws.create_cell s doc y c) ∙ unmarked y ∙ m),
      )
      | inr c ↦
          let there = laws.create_duplicate s doc c in
          let missing = subst (λ x. v.has s x ≡ false) p a in cc
    ]
  ]

  abbrev Keeps : Next db update_key_msg conv → Type 0
  Keeps next =
      (s : Store) (try : Bool) (seq : ℕ) (fs : List Field)
      → HasMarks s
      → (next s try seq fs).1 ≡ done
      → HasMarks (next s try seq fs).0

  created-Keeps :
      (next : Next db update_key_msg conv) (seq : ℕ) (fs : List Field) (n : ℕ)
      (r : Store × CreateReply)
      → Keeps next
      → (((r.1 ≡ created) ⊎ (r.1 ≡ duplicate_key)) → HasMarks r.0)
      → let t = created_with db update_key_msg conv next seq fs n r in t.1 ≡ done → HasMarks t.0
  unfolding created_with
  created-Keeps next seq fs n (t, created) ih k = ih t false (seq + n) (after n fs) (k (inl refl))
  created-Keeps next seq fs n (t, duplicate_key) ih k = ih t true seq fs (k (inr refl))
  created-Keeps next seq fs n (t, create_failed) ih k = λ h. cc

  create-Keeps :
      (next : Next db update_key_msg conv) (s : Store) (seq : ℕ) (fs : List Field)
      → Keeps next
      → HasMarks s
      → let t = create_step db update_key_msg conv next s seq fs in t.1 ≡ done → HasMarks t.0
  unfolding create_step
  create-Keeps next s seq fs ih a =
      elim (Option-cases (fill update_key_msg conv (get_doc_id conv seq) seq fs empty_slots 0)) [
        | inl q ↦ rw (q, create_filled) (λ h. cc)
        | inr ((ms, n), q) ↦
            rw (q, create_filled)
              (created-Keeps next seq fs n _ ih (λ k.
                create-HasMarks s _
                  (λ z. slot_at-Unmarked ms z (
                    fill-Unmarked conv (get_doc_id conv seq) fs seq empty_slots 0 (ms, n) q
                      (empty_slots-Unmarked single_goc_msg_num)))
                  k a))
      ]

  updated-Keeps :
      (next : Next db update_key_msg conv) (seq : ℕ) (f : Field) (fs : List Field)
      (r : Store × UpdateReply)
      → Keeps next
      → ((b : Bool) → r.1 ≡ matched b → HasMarks r.0)
      → let t = updated_with db update_key_msg conv next seq f fs r in t.1 ≡ done → HasMarks t.0
  unfolding updated_with
  updated-Keeps next seq f fs (t, matched true) ih k = ih t true (seq + 1) fs (k true refl)
  updated-Keeps next seq f fs (t, matched false) ih k =
      create-Keeps next t seq (f ∷ fs) ih (k false refl)
  updated-Keeps next seq f fs (t, update_failed) ih k = λ h. cc

  body-Keeps :
      (next : Next db update_key_msg conv) (s : Store) (try : Bool) (seq : ℕ) (f : Field)
      (fs : List Field)
      → Keeps next
      → HasMarks s
      → let t = loop_body db update_key_msg conv next s try seq f fs in t.1 ≡ done → HasMarks t.0
  unfolding loop_body
  body-Keeps next s true seq f fs ih a =
      updated-Keeps next seq f fs _ ih (λ b h. update-HasMarks s _ _ f b h a)
  body-Keeps next s false seq f fs ih a = create-Keeps next s seq (f ∷ fs) ih a

  loop-HasMarks : (fuel : ℕ) → Keeps (block_loop db update_key_msg conv fuel)
  unfolding block_loop
  loop-HasMarks zero s try seq fs a h = cc
  loop-HasMarks (suc fuel) s try seq [] a h = a
  loop-HasMarks (suc fuel) s try seq (f ∷ fs) a h =
      body-Keeps (block_loop db update_key_msg conv fuel) s try seq f fs (loop-HasMarks fuel) a h

  -- An insertion of messages that succeeds leaves the marks of every element whose document was there,
  -- and marks no element of a document that it makes.
  pub batch_insert_block-HasMarks :
      (s : Store) (fs : List Field) (first_seq : ℕ)
      → HasMarks s
      → (batch_insert_block db update_key_msg conv s fs first_seq).1 ≡ done
      → HasMarks (batch_insert_block db update_key_msg conv s fs first_seq).0
  unfolding batch_insert_block
  batch_insert_block-HasMarks s [] first_seq a = λ h. a
  batch_insert_block-HasMarks s (f ∷ fs) first_seq a =
      elim (Option-cases (check_fields update_key_msg (f ∷ fs) first_seq)) [
        | inl q ↦
            subst (λ (t : Store × BlockResult). t.1 ≡ done → HasMarks t.0)
              (sym (batch_checked db v laws update_key_msg conv s f fs first_seq q))
              (loop-HasMarks _ s true first_seq (f ∷ fs) a)
        | inr (x, q) ↦ λ h.
            absurd
              (failed-ne-done (batch_refused db v laws update_key_msg conv s f fs first_seq x q) h)
      ]
