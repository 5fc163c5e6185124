-- ===== src/MsgStore/Block/Stored.antt =====
-- Where `BatchInsertBlock` succeeds, every field can be read back at its place.
use k.Base.{
  ap, ◌*◌, length, ℕ, zero, suc, ◌+◌, ◌<◌, ◌≤◌, ◌≡◌, ◌⊎◌, ◌∙◌, refl, sym, inl, inr, Bool, true,
  false, Option, none, some, List, [], ◌∷◌, Str, ℤ, arith, Option-cases, All, subst,
}
use k.MsgStore.Doc.{MsgInfoModel, get_doc_id, get_msg_index}
use k.MsgStore.Block.{
  Field, nil_any, msg_ptr, revoke_ptr, UpdateKey, update_key_msg, update_key_revoke, other_key,
  UpdateReply, matched, update_failed, CreateReply, created, duplicate_key, create_failed,
  MsgDocStore, BlockResult, BlockError, done, failed, Slots, fill, empty_slots, after, info_of,
  check_fields, check_field, created_with, create_filled, create_step, updated_with, loop_body,
  block_loop, batch_insert_block,
}
use k.MsgStore.Block.Laws.{slot_at, View, IsCollection, put_field}
use k.MsgStore.Block.Frame.{loop-Keeps}
use k.MsgStore.Block.Filled.{InSlots, fill-InSlots, places_differ, slot_at-no_nil}

-- What a reader finds of a kind of field in an element.
unfoldable pub read : UpdateKey → Option MsgInfoModel → Option Field
read update_key_msg (some i) = some (msg_ptr i.msg)
read update_key_revoke (some i) = some (revoke_ptr i.revoke)
read _ _ = none

abbrev IsField : UpdateKey → Field → Type 0
IsField key f = (i : MsgInfoModel) × (info_of key f ≡ some i)

read-info_of :
    (key : UpdateKey) (f : Field) (i : MsgInfoModel)
    → info_of key f ≡ some i
    → read key (some i) ≡ some f
unfolding read info_of
read-info_of update_key_msg (msg_ptr m) i h = ground arith
read-info_of update_key_revoke (revoke_ptr r) i h = ground arith
read-info_of key f i h = ground arith

read-put_field :
    (key : UpdateKey) (f : Field) (i : MsgInfoModel)
    → IsField key f
    → read key (some (put_field key f i)) ≡ some f
unfolding read put_field info_of
read-put_field update_key_msg (msg_ptr m) i h = refl
read-put_field update_key_revoke (revoke_ptr r) i h = refl
read-put_field key f i h = ground arith

check_field-IsField :
    (key : UpdateKey) (f : Field) (seq : ℕ) → check_field key f seq ≡ none → IsField key f
unfolding check_field info_of
check_field-IsField update_key_msg (msg_ptr m) seq h = (_, refl)
check_field-IsField update_key_revoke (revoke_ptr r) seq h = (_, refl)
check_field-IsField update_key_msg nil_any seq h = cc
check_field-IsField update_key_msg (revoke_ptr r) seq h = cc
check_field-IsField update_key_revoke nil_any seq h = cc
check_field-IsField update_key_revoke (msg_ptr m) seq h = cc
check_field-IsField other_key f seq h = cc

check_fields-IsField :
    (key : UpdateKey) (fs : List Field) (seq : ℕ)
    → check_fields key fs seq ≡ none
    → All (IsField key) fs
unfolding check_fields
check_fields-IsField key [] seq h = tt
check_fields-IsField key (f ∷ fs) seq h = elim (Option-cases (check_field key f seq)) [
  | inl e ↦ (check_field-IsField key f seq e, check_fields-IsField key fs (seq + 1) (ground arith))
  | inr (x, e) ↦ ground arith
]

All-after {ℓ κ} :
    {A : Type ℓ} (P : A → Type κ) (n : ℕ) (xs : List A) → All P xs → All P (after n xs)
All-after P zero xs h = h
All-after P (suc n) [] h = h
All-after P (suc n) (x ∷ xs) h = All-after P n xs h.1

matched_has :
    {r : UpdateReply} {b : Bool}
    → ((r ≡ matched b) ⊎ (r ≡ update_failed))
    → r ≡ matched true
    → b ≡ true
matched_has (inl e) h = cc
matched_has (inr e) h = cc

pub failed-ne-done : {x : BlockError} {r : BlockResult} → r ≡ failed x → r ≡ done → ⊥
failed-ne-done a b = cc

lt_ne : {j k m : ℕ} → j < k → k ≤ m → j ≡ m → ⊥
lt_ne h l e = omega arith

module _ (db : MsgDocStore) (v : View db) (laws : IsCollection db v) (key : UpdateKey)
    (conv : Str) where
  open db use {Store, update_msg, create}

  abbrev StoredAt : Store → ℕ → Field → Type 0
  StoredAt s seq f =
      (v.has s (get_doc_id conv seq) ≡ true)
      × (read key (v.cell s (get_doc_id conv seq) (get_msg_index seq)) ≡ some f)

  -- Each field is at the place of its sequence number.
  abbrev pub Stored : Store → ℕ → List Field → Type 0
  Stored s seq [] = Unit
  Stored s seq (f ∷ fs) =
      ((v.has s (get_doc_id conv seq) ≡ true)
        × (read key (v.cell s (get_doc_id conv seq) (get_msg_index seq)) ≡ some f))
      × Stored s (seq + 1) fs

  -- The first n fields only.
  abbrev StoredFirst : Store → ℕ → ℕ → List Field → Type 0
  StoredFirst s seq zero fs = Unit
  StoredFirst s seq (suc n) [] = Unit
  StoredFirst s seq (suc n) (f ∷ fs) = StoredAt s seq f × StoredFirst s (seq + 1) n fs

  Stored-join :
      (s : Store) (n seq : ℕ) (fs : List Field)
      → StoredFirst s seq n fs
      → Stored s (seq + n) (after n fs)
      → Stored s seq fs
  Stored-join s zero seq fs a b = subst (λ (m : ℕ). Stored s m fs) (omega arith) b
  Stored-join s (suc n) seq [] a b = tt
  Stored-join s (suc n) seq (f ∷ fs) a b = (
    a.0,
    Stored-join s n (seq + 1) fs a.1 (subst (λ (m : ℕ). Stored s m (after n fs)) (omega arith) b),
  )

  -- What is stored below `seq` stays so for the rest of the loop.
  stays :
      (fuel : ℕ) (s : Store) (try : Bool) (seq j : ℕ) (f : Field) (fs : List Field)
      → 0 < j
      → j < seq
      → StoredAt s j f
      → StoredAt (block_loop db key conv fuel s try seq fs).0 j f
  stays fuel s try seq j f fs p l a =
      let (h, c) =
        loop-Keeps db v laws key conv (get_doc_id conv j) (get_msg_index j) fuel s try seq fs a.0
          (λ m q. places_differ conv j m p (omega arith) (λ e. lt_ne l q e)) in
      (h, ap (read key) c ∙ a.1)

  stays_first :
      (fuel : ℕ) (s : Store) (try : Bool) (seq : ℕ) (rest : List Field) (n j : ℕ) (fs : List Field)
      → 0 < j
      → j + n ≤ seq
      → StoredFirst s j n fs
      → StoredFirst (block_loop db key conv fuel s try seq rest).0 j n fs
  stays_first fuel s try seq rest zero j fs p l a = tt
  stays_first fuel s try seq rest (suc n) j [] p l a = tt
  stays_first fuel s try seq rest (suc n) j (f ∷ fs) p l a = (
    stays fuel s try seq j f rest p (omega arith) a.0,
    stays_first fuel s try seq rest n (j + 1) fs (omega arith) (omega arith) a.1,
  )

  InSlots-StoredFirst :
      (s : Store) (d : Str) (ms : Slots) (n seq : ℕ) (fs : List Field)
      → v.has s d ≡ true
      → ((z : ℤ) (i : MsgInfoModel) → slot_at ms z ≡ some i → v.cell s d z ≡ some i)
      → InSlots key conv d ms seq n fs
      → StoredFirst s seq n fs
  InSlots-StoredFirst s d ms zero seq fs h c a = tt
  InSlots-StoredFirst s d ms (suc n) seq [] h c a = tt
  InSlots-StoredFirst s d ms (suc n) seq (f ∷ fs) h c (e, (i, b, g), rest) = (
    rw e (h, ap (read key) (c (get_msg_index seq) i g) ∙ read-info_of key f i b),
    InSlots-StoredFirst s d ms n (seq + 1) fs h c rest,
  )

  abbrev Wins : ℕ → Type 0
  Wins fuel =
      (s : Store) (try : Bool) (seq : ℕ) (fs : List Field)
      → 0 < seq
      → All (IsField key) fs
      → (block_loop db key conv fuel s try seq fs).1 ≡ done
      → Stored (block_loop db key conv fuel s try seq fs).0 seq fs

  created-Wins :
      (fuel : ℕ) (seq : ℕ) (fs : List Field) (n : ℕ) (r : Store × CreateReply)
      → Wins fuel
      → 0 < seq
      → All (IsField key) fs
      → (r.1 ≡ created → StoredFirst r.0 seq n fs)
      → let t = created_with db key conv (block_loop db key conv fuel) seq fs n r in
        t.1 ≡ done → Stored t.0 seq fs
  unfolding created_with
  created-Wins fuel seq fs n (s, created) ih p w a e =
      Stored-join _ n seq fs
        (stays_first fuel s false (seq + n) (after n fs) n seq fs p (omega arith) (a refl))
        (ih s false (seq + n) (after n fs) (omega arith) (All-after (IsField key) n fs w) e)
  created-Wins fuel seq fs n (s, duplicate_key) ih p w a e = ih s true seq fs p w e
  created-Wins fuel seq fs n (s, create_failed) ih p w a e = cc

  create-Wins :
      (fuel : ℕ) (s : Store) (seq : ℕ) (fs : List Field)
      → Wins fuel
      → 0 < seq
      → All (IsField key) fs
      → let t = create_step db key conv (block_loop db key conv fuel) s seq fs in
        t.1 ≡ done → Stored t.0 seq fs
  unfolding create_step
  create-Wins fuel s seq fs ih p w =
      elim (Option-cases (fill key conv (get_doc_id conv seq) seq fs empty_slots 0)) [
        | inl q ↦ rw (q, create_filled) (λ e. cc)
        | inr ((ms, n), q) ↦
            let d = get_doc_id conv seq in
            let (k, c, g) = fill-InSlots key conv d fs seq empty_slots 0 (ms, n) p q in
            rw (q, create_filled)
              (created-Wins fuel seq fs n _ ih p w (λ made.
                InSlots-StoredFirst _ d ms n seq fs (laws.create_has s _ made)
                  (λ z i at. laws.create_cell s _ z made ∙ slot_at-no_nil ms z i at)
                  (subst (λ (j : ℕ). InSlots key conv d ms seq j fs) (omega arith) g)))
      ]

  updated-Wins :
      (fuel : ℕ) (seq : ℕ) (f : Field) (fs : List Field) (r : Store × UpdateReply)
      → Wins fuel
      → 0 < seq
      → All (IsField key) (f ∷ fs)
      → (r.1 ≡ matched true → StoredAt r.0 seq f)
      → let t = updated_with db key conv (block_loop db key conv fuel) seq f fs r in
        t.1 ≡ done → Stored t.0 seq (f ∷ fs)
  unfolding updated_with
  updated-Wins fuel seq f fs (s, matched true) ih p w a e = (
    stays fuel s true (seq + 1) seq f fs p (omega arith) (a refl),
    ih s true (seq + 1) fs (omega arith) w.1 e,
  )
  updated-Wins fuel seq f fs (s, matched false) ih p w a e =
      create-Wins fuel s seq (f ∷ fs) ih p w e
  updated-Wins fuel seq f fs (s, update_failed) ih p w a e = cc

  -- An update that matched has written its field.
  matched-StoredAt :
      (s : Store) (seq : ℕ) (f : Field)
      → IsField key f
      → let r = update_msg s (get_doc_id conv seq) (get_msg_index seq) key f in
        r.1 ≡ matched true → StoredAt r.0 seq f
  matched-StoredAt s seq f w e =
      let d = get_doc_id conv seq in
      let z = get_msg_index seq in
      (
        laws.update_has s d z key f d ∙ matched_has (laws.update_matched s d z key f) e,
        ap (read key) (laws.update_cell s d z key f e) ∙ read-put_field key f _ w,
      )

  body-Wins :
      (fuel : ℕ) (s : Store) (try : Bool) (seq : ℕ) (f : Field) (fs : List Field)
      → Wins fuel
      → 0 < seq
      → All (IsField key) (f ∷ fs)
      → let t = loop_body db key conv (block_loop db key conv fuel) s try seq f fs in
        t.1 ≡ done → Stored t.0 seq (f ∷ fs)
  unfolding loop_body
  body-Wins fuel s true seq f fs ih p w =
      updated-Wins fuel seq f fs _ ih p w (matched-StoredAt s seq f w.0)
  body-Wins fuel s false seq f fs ih p w = create-Wins fuel s seq (f ∷ fs) ih p w

  loop-Wins : (fuel : ℕ) → Wins fuel
  unfolding block_loop
  loop-Wins zero s try seq fs p w e = cc
  loop-Wins (suc fuel) s try seq [] p w e = tt
  loop-Wins (suc fuel) s try seq (f ∷ fs) p w e =
      body-Wins fuel s try seq f fs (loop-Wins fuel) p w e

  pub batch_checked :
      (s : Store) (f : Field) (fs : List Field) (n : ℕ)
      → check_fields key (f ∷ fs) n ≡ none
      → batch_insert_block db key conv s (f ∷ fs) n
        ≡ block_loop db key conv (2 * length (f ∷ fs) + 2) s true n (f ∷ fs)
  unfolding batch_insert_block
  batch_checked s f fs n q = rw (q, batch_insert_block)

  pub batch_refused :
      (s : Store) (f : Field) (fs : List Field) (n : ℕ) (x : BlockError)
      → check_fields key (f ∷ fs) n ≡ some x
      → (batch_insert_block db key conv s (f ∷ fs) n).1 ≡ failed x
  unfolding batch_insert_block
  batch_refused s f fs n x q = rw (q, batch_insert_block)

  -- If `BatchInsertBlock` succeeds on fields whose sequence numbers begin at `first_seq`, at least 1,
  -- then the document of every field exists and the field is read back at its place, whether its
  -- document was there before or was made.
  pub batch_insert_block-Stored :
      (s : Store) (fs : List Field) (first_seq : ℕ)
      → 0 < first_seq
      → (batch_insert_block db key conv s fs first_seq).1 ≡ done
      → Stored (batch_insert_block db key conv s fs first_seq).0 first_seq fs
  unfolding batch_insert_block
  batch_insert_block-Stored s [] first_seq p = λ e. tt
  batch_insert_block-Stored s (f ∷ fs) first_seq p =
      elim (Option-cases (check_fields key (f ∷ fs) first_seq)) [
        | inl q ↦
            subst (λ (t : Store × BlockResult). t.1 ≡ done → Stored t.0 first_seq (f ∷ fs))
              (sym (batch_checked s f fs first_seq q))
              (loop-Wins _ s true first_seq (f ∷ fs) p
                (check_fields-IsField key (f ∷ fs) first_seq q))
        | inr (x, q) ↦ λ e. absurd (failed-ne-done (batch_refused s f fs first_seq x q) e)
      ]

  -- An element of a document that exists, under a sequence number from 1 to below `first_seq`, is the
  -- same after the insertion, also where the insertion fails halfway.
  batch_insert_block_keeps :
      (s : Store) (fs : List Field) (first_seq j : ℕ)
      → 0 < j
      → j < first_seq
      → v.has s (get_doc_id conv j) ≡ true
      → v.cell
          (batch_insert_block db key conv s fs first_seq).0
          (get_doc_id conv j)
          (get_msg_index j)
        ≡ v.cell s (get_doc_id conv j) (get_msg_index j)
  unfolding batch_insert_block
  batch_insert_block_keeps s [] first_seq j p l h = refl
  batch_insert_block_keeps s (f ∷ fs) first_seq j p l h =
      elim (Option-cases (check_fields key (f ∷ fs) first_seq)) [
        | inl q ↦
            rw (q, batch_insert_block)
              (loop-Keeps db v laws key conv (get_doc_id conv j) (get_msg_index j) _ s true
                first_seq (f ∷ fs) h
                (λ m g. places_differ conv j m p (omega arith) (λ e. lt_ne l g e))).1
        | inr (x, q) ↦ rw (q, batch_insert_block)
      ]
