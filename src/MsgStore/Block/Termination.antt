-- ===== src/MsgStore/Block/Termination.antt =====
-- The retry after a duplicate key does not go on for ever.
use k.Base.{
  str_eq, ℕ, zero, suc, ◌+◌, ◌*◌, ◌<◌, ◌≤◌, ◌≡◌, ◌≢◌, refl, inl, inr, Bool, true, false, some, List,
  [], ◌∷◌, length, Str, arith, str_eq_refl, if◌then◌else◌, Option-cases, Bool-cases,
}
use k.MsgStore.Doc.{get_doc_id, get_msg_index}
use k.MsgStore.Block.{
  Field, UpdateKey, UpdateReply, matched, update_failed, CreateReply, created, duplicate_key,
  create_failed, MsgDocStore, out_of_fuel, Slots, fill, put_info, info_of, after, empty_slots,
  check_fields, Next, created_with, create_filled, create_step, updated_with, loop_body, block_loop,
  batch_insert_block,
}
use k.MsgStore.Block.Laws.{View, IsCollection}

-- The creating branch takes at least the field that it begins with.
fill-count :
    (key : UpdateKey) (conv d : Str) (seq : ℕ) (fs : List Field) (ms : Slots) (n : ℕ)
    (r : Slots × ℕ)
    → fill key conv d seq fs ms n ≡ some r
    → n ≤ r.1
unfolding fill
fill-count key conv d seq [] ms n r h = ground arith
fill-count key conv d seq (f ∷ fs) ms n r h = elim (Bool-cases (str_eq (get_doc_id conv seq) d)) [
  | inr e ↦ ground arith
  | inl e ↦ elim (Option-cases (put_info ms (get_msg_index seq) (info_of key f))) [
    | inl p ↦ ground arith
    | inr (ms', p) ↦ ground (arith, fill-count key conv d (seq + 1) fs ms' (n + 1) r)
  ]
]

pub fill-takes :
    (key : UpdateKey) (conv : Str) (seq : ℕ) (f : Field) (fs : List Field) (ms : Slots)
    (r : Slots × ℕ)
    → fill key conv (get_doc_id conv seq) seq (f ∷ fs) ms 0 ≡ some r
    → 0 < r.1
unfolding fill
fill-takes key conv seq f fs ms r h =
    let h' = rw (str_eq_refl (get_doc_id conv seq)) at h in
    elim (Option-cases (put_info ms (get_msg_index seq) (info_of key f))) [
      | inl p ↦ ground arith
      | inr (ms', p) ↦
          ground (arith, fill-count key conv (get_doc_id conv seq) (seq + 1) fs ms' 1 r)
    ]

length-after {ℓ} : {A : Type ℓ} (n : ℕ) (xs : List A) → length (after n xs) + n ≤ length xs + n
length-after zero xs = omega arith
length-after (suc n) [] = omega arith
length-after (suc n) (x ∷ xs) = omega (arith, length-after n xs)

length-after_pos {ℓ} :
    {A : Type ℓ} (n : ℕ) (x : A) (xs : List A) → 0 < n → length (after n (x ∷ xs)) ≤ length xs
length-after_pos zero x xs h = absurd (omega arith)
length-after_pos (suc n) x xs h = omega (arith, length-after n xs)

true_and_false : {b : Bool} → b ≡ true → b ≡ false → ⊥
true_and_false p q = cc

abbrev measure : Bool → List Field → ℕ
measure try fs = 2 * length fs + (if try then 0 else 1)

module _ (db : MsgDocStore) (v : View db) (laws : IsCollection db v) (key : UpdateKey)
    (conv : Str) where
  open db use {Store, update_msg, create}

  unmatched_absent :
      (s : Store) (seq : ℕ) (f : Field)
      → (update_msg s (get_doc_id conv seq) (get_msg_index seq) key f).1 ≡ matched false
      → v.has (update_msg s (get_doc_id conv seq) (get_msg_index seq) key f).0 (get_doc_id conv seq)
        ≡ false
  unmatched_absent s seq f q =
      let d = get_doc_id conv seq in
      let z = get_msg_index seq in
      rw (laws.update_has s d z key f d) (elim (laws.update_matched s d z key f) [
        | inl m ↦ ground (arith, m, q)
        | inr m ↦ ground (arith, m, q)
      ])

  -- The rest of the loop ends whenever its measure is below the bound.
  abbrev Ends : ℕ → Next db key conv → Type 0
  Ends fuel next =
      (s : Store) (try : Bool) (seq : ℕ) (fs : List Field)
      → measure try fs < fuel
      → (next s try seq fs).1 ≢ out_of_fuel

  created-Ends :
      (fuel : ℕ) (next : Next db key conv) (seq : ℕ) (f : Field) (fs : List Field) (n : ℕ)
      (r : Store × CreateReply)
      → Ends fuel next
      → 0 < n
      → 2 * length (f ∷ fs) ≤ fuel
      → (r.1 ≡ duplicate_key → 2 * length (f ∷ fs) < fuel)
      → (created_with db key conv next seq (f ∷ fs) n r).1 ≢ out_of_fuel
  unfolding created_with
  created-Ends fuel next seq f fs n (s, created) ih p h d =
      ih s false (seq + n) (after n (f ∷ fs)) (omega (arith, length-after_pos n f fs p))
  created-Ends fuel next seq f fs n (s, duplicate_key) ih p h d =
      ih s true seq (f ∷ fs) (omega (arith, d refl))
  created-Ends fuel next seq f fs n (s, create_failed) ih p h d = λ e. cc

  create-Ends :
      (fuel : ℕ) (next : Next db key conv) (s : Store) (seq : ℕ) (f : Field) (fs : List Field)
      → Ends fuel next
      → 2 * length (f ∷ fs) ≤ fuel
      → (v.has s (get_doc_id conv seq) ≡ true → 2 * length (f ∷ fs) < fuel)
      → (create_step db key conv next s seq (f ∷ fs)).1 ≢ out_of_fuel
  unfolding create_step
  create-Ends fuel next s seq f fs ih h d =
      elim (Option-cases (fill key conv (get_doc_id conv seq) seq (f ∷ fs) empty_slots 0)) [
        | inl e ↦ rw (e, create_filled) (λ q. cc)
        | inr ((ms, n), e) ↦
            rw (e, create_filled)
              (created-Ends fuel next seq f fs n _ ih
                (fill-takes key conv seq f fs empty_slots (ms, n) e) h
                (λ q. d (laws.create_duplicate s _ q)))
      ]

  updated-Ends :
      (fuel : ℕ) (next : Next db key conv) (seq : ℕ) (f : Field) (fs : List Field)
      (r : Store × UpdateReply)
      → Ends fuel next
      → 2 * length (f ∷ fs) ≤ fuel
      → (r.1 ≡ matched false → v.has r.0 (get_doc_id conv seq) ≡ false)
      → (updated_with db key conv next seq f fs r).1 ≢ out_of_fuel
  unfolding updated_with
  updated-Ends fuel next seq f fs (s, matched true) ih h a = ih s true (seq + 1) fs (omega arith)
  updated-Ends fuel next seq f fs (s, matched false) ih h a =
      create-Ends fuel next s seq f fs ih h (λ t. absurd (true_and_false t (a refl)))
  updated-Ends fuel next seq f fs (s, update_failed) ih h a = λ e. cc

  body-Ends :
      (fuel : ℕ) (next : Next db key conv) (s : Store) (try : Bool) (seq : ℕ) (f : Field)
      (fs : List Field)
      → Ends fuel next
      → measure try (f ∷ fs) ≤ fuel
      → (loop_body db key conv next s try seq f fs).1 ≢ out_of_fuel
  unfolding loop_body
  body-Ends fuel next s true seq f fs ih h =
      updated-Ends fuel next seq f fs _ ih (omega arith) (λ q. unmatched_absent s seq f q)
  body-Ends fuel next s false seq f fs ih h =
      create-Ends fuel next s seq f fs ih (omega arith) (λ _. omega arith)

  loop-Ends : (fuel : ℕ) → Ends fuel (block_loop db key conv fuel)
  unfolding block_loop
  loop-Ends zero s try seq fs h = absurd (omega arith)
  loop-Ends (suc fuel) s try seq [] h = λ e. cc
  loop-Ends (suc fuel) s try seq (f ∷ fs) h =
      body-Ends fuel (block_loop db key conv fuel) s try seq f fs (loop-Ends fuel) (omega arith)

  -- While nobody else writes to the collection, `BatchInsertBlock` ends, on any fields and whatever
  -- the collection refuses: two rounds for each field, and two more, are enough.
  pub batch_insert_block_ends :
      (s : Store) (fs : List Field) (first_seq : ℕ)
      → (batch_insert_block db key conv s fs first_seq).1 ≢ out_of_fuel
  unfolding batch_insert_block
  batch_insert_block_ends s [] first_seq = λ e. cc
  batch_insert_block_ends s (f ∷ fs) first_seq =
      elim (Option-cases (check_fields key (f ∷ fs) first_seq)) [
        | inl e ↦ rw (e, batch_insert_block) (loop-Ends _ s true first_seq (f ∷ fs) (omega arith))
        | inr (x, e) ↦ rw (e, batch_insert_block) (λ q. cc)
      ]
