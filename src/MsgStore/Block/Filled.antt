-- ===== src/MsgStore/Block/Filled.antt =====
-- What the creating branch puts into the slots of a new document.
use k.Base.{
  ap, ℕ, zero, suc, ◌+◌, ◌<◌, ◌≡◌, ◌≢◌, ◌⊎◌, ◌∙◌, refl, sym, inl, inr, Option, none, some, List, [],
  ◌∷◌, Str, str_dec, ℤ, pos, negsuc, arith, Option-cases, map, set, get_elem?, length,
}
use k.MsgStore.Doc.{MsgInfoModel, get_doc_id, get_msg_index}
use k.MsgStore.Doc.Laws.{place_injective}
use k.MsgStore.Block.{Field, UpdateKey, Slots, fill, put_info, put_slot, info_of, no_nil}
use k.MsgStore.Block.Laws.{slot_at}

get_elem?-set_self {ℓ} :
    {A : Type ℓ} (xs : List A) (i : ℕ) (a : A) → i < length xs → get_elem? (set xs i a) i ≡ some a
get_elem?-set_self [] i a h = absurd (omega arith)
get_elem?-set_self (x ∷ xs) zero a h = refl
get_elem?-set_self (x ∷ xs) (suc i) a h = get_elem?-set_self xs i a (omega arith)

get_elem?-set_other {ℓ} :
    {A : Type ℓ} (xs : List A) (i j : ℕ) (a : A) → j ≢ i → get_elem? (set xs i a) j ≡ get_elem? xs j
get_elem?-set_other [] i j a h = refl
get_elem?-set_other (x ∷ xs) zero zero a h = absurd (h refl)
get_elem?-set_other (x ∷ xs) zero (suc j) a h = refl
get_elem?-set_other (x ∷ xs) (suc i) zero a h = refl
get_elem?-set_other (x ∷ xs) (suc i) (suc j) a h = get_elem?-set_other xs i j a (λ e. h (ap suc e))

some_eq {ℓ} : {A : Type ℓ} {a b : A} → some a ≡ some b → b ≡ a
some_eq h = cc

lt_irrefl : {j k : ℕ} → j < k → j ≡ k → ⊥
lt_irrefl h e = omega arith

put_slot_self :
    (ms ms' : Slots) (z : ℤ) (i : MsgInfoModel)
    → put_slot ms z i ≡ some ms'
    → slot_at ms' z ≡ some i
unfolding put_slot
put_slot_self ms ms' (pos k) i h = ground (arith, get_elem?-set_self ms k (some i))
put_slot_self ms ms' (negsuc k) i h = cc

put_slot-other :
    (ms ms' : Slots) (z y : ℤ) (i : MsgInfoModel)
    → put_slot ms z i ≡ some ms'
    → y ≢ z
    → slot_at ms' y ≡ slot_at ms y
unfolding put_slot
put_slot-other ms ms' (pos k) (pos j) i h n =
    ground (arith, get_elem?-set_other ms k j (some i) (λ e. n (ap pos e)))
put_slot-other ms ms' (pos k) (negsuc j) i h n = refl
put_slot-other ms ms' (negsuc k) y i h n = cc

pub slot_at-no_nil :
    (ms : Slots) (z : ℤ) (i : MsgInfoModel)
    → slot_at ms z ≡ some i
    → slot_at (map no_nil ms) z ≡ some i
slot_at-no_nil ms (negsuc k) i h = cc
slot_at-no_nil [] (pos k) i h = cc
slot_at-no_nil (m ∷ ms) (pos zero) i h = ground arith
slot_at-no_nil (m ∷ ms) (pos (suc k)) i h = slot_at-no_nil ms (pos k) i h

-- Two sequence numbers from 1 on have different places.
pub places_differ :
    (conv : Str) (m n : ℕ)
    → 0 < m
    → 0 < n
    → m ≢ n
    → (get_doc_id conv m ≢ get_doc_id conv n) ⊎ (get_msg_index m ≢ get_msg_index n)
places_differ conv m n h k ne = elim (str_dec (get_doc_id conv m) (get_doc_id conv n)) [
  | yes p ↦ inr (λ q. ne (place_injective conv conv m n h k p q).1)
  | no p ↦ inl p
]

module _ (key : UpdateKey) (conv : Str) (d : Str) where
  -- The slots at the indices of the next k sequence numbers hold the next k fields.
  abbrev pub InSlots : Slots → ℕ → ℕ → List Field → Type 0
  InSlots ms seq zero fs = Unit
  InSlots ms seq (suc n) [] = ⊥
  InSlots ms seq (suc n) (f ∷ fs) =
      (get_doc_id conv seq ≡ d)
      × ((i : MsgInfoModel) × (info_of key f ≡ some i) × (slot_at ms (get_msg_index seq) ≡ some i))
      × InSlots ms (seq + 1) n fs

  put_info_inv :
      (ms ms' : Slots) (z : ℤ) (o : Option MsgInfoModel)
      → put_info ms z o ≡ some ms'
      → (i : MsgInfoModel) × (o ≡ some i) × (put_slot ms z i ≡ some ms')
  unfolding put_info
  put_info_inv ms ms' z none h = cc
  put_info_inv ms ms' z (some i) h = (i, refl, h)

  -- One round of the filling: it stops at another document, or it puts one field into its slot.
  abbrev pub Round : ℕ → Field → List Field → Slots → ℕ → Slots × ℕ → Type 0
  Round seq f fs ms n r =
      (r ≡ (ms, n))
      ⊎ ((get_doc_id conv seq ≡ d)
          × (i : MsgInfoModel) × (info_of key f ≡ some i)
          × (ms' : Slots) × (put_slot ms (get_msg_index seq) i ≡ some ms')
          × (fill key conv d (seq + 1) fs ms' (n + 1) ≡ some r))

  pub fill-Round :
      (seq : ℕ) (f : Field) (fs : List Field) (ms : Slots) (n : ℕ) (r : Slots × ℕ)
      → fill key conv d seq (f ∷ fs) ms n ≡ some r
      → Round seq f fs ms n r
  unfolding fill
  fill-Round seq f fs ms n r h = elim (str_dec (get_doc_id conv seq) d) [
    | no q ↦ inl (ground arith)
    | yes q ↦ elim (Option-cases (put_info ms (get_msg_index seq) (info_of key f))) [
      | inl e ↦ ground arith
      | inr (ms', e) ↦
          let (i, a, b) = put_info_inv ms ms' (get_msg_index seq) (info_of key f) e in
          inr (q, i, a, ms', b, ground arith)
    ]
  ]

  fill-keeps :
      (fs : List Field) (seq : ℕ) (ms : Slots) (n : ℕ) (r : Slots × ℕ) (j : ℕ)
      → fill key conv d seq fs ms n ≡ some r
      → 0 < j
      → j < seq
      → get_doc_id conv j ≡ d
      → slot_at r.0 (get_msg_index j) ≡ slot_at ms (get_msg_index j)
  unfolding fill
  fill-keeps [] seq ms n r j h p l q =
      ap (λ (t : Slots × ℕ). slot_at t.0 (get_msg_index j)) (some_eq h)
  fill-keeps (f ∷ fs) seq ms n r j h p l q = elim (fill-Round seq f fs ms n r h) [
    | inl e ↦ ap (λ (t : Slots × ℕ). slot_at t.0 (get_msg_index j)) e
    | inr (e, i, a, ms', b, rest) ↦
        fill-keeps fs (seq + 1) ms' (n + 1) r j rest p (omega arith) q
        ∙ put_slot-other ms ms' (get_msg_index seq) (get_msg_index j) i b (λ same.
          absurd (lt_irrefl l (place_injective conv conv j seq p (omega arith) (q ∙ sym e) same).1))
  ]

  pub fill-InSlots :
      (fs : List Field) (seq : ℕ) (ms : Slots) (n : ℕ) (r : Slots × ℕ)
      → 0 < seq
      → fill key conv d seq fs ms n ≡ some r
      → (k : ℕ) × (r.1 ≡ n + k) × InSlots r.0 seq k fs
  unfolding fill
  fill-InSlots [] seq ms n r p h = (0, ground arith, tt)
  fill-InSlots (f ∷ fs) seq ms n r p h = elim (fill-Round seq f fs ms n r h) [
    | inl e ↦ (0, ground arith, tt)
    | inr (e, i, a, ms', b, rest) ↦
        let (k, c, more) = fill-InSlots fs (seq + 1) ms' (n + 1) r (omega arith) rest in
        (
          suc k,
          omega arith,
          (
            e,
            (
              i,
              a,
              fill-keeps fs (seq + 1) ms' (n + 1) r seq rest p (omega arith) e
                  ∙ put_slot_self ms ms' (get_msg_index seq) i b,
            ),
            more,
          ),
        )
  ]
