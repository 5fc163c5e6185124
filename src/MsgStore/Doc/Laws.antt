-- ===== src/MsgStore/Doc/Laws.antt =====
-- Where a message lies: the document and the index determine its sequence number.
use mathlib.Core.List.{append_assoc}
use mathlib.Core.Path.{ap₂}
use k.Base.{
  head_eq, tail_eq, subst, ℕ, zero, suc, ◌%◌, ◌<◌, ◌≡◌, refl, sym, ap, ◌∙◌, some, [], ◌∷◌, ◌++◌,
  Str, codes, format_int, pos, arith, All, is_digit, true, format_int-All, format_int-value,
  digits_value,
}
use k.MsgStore.Doc.{index_gen, doc_suffix, get_doc_id, get_msg_index}

some_inv : {a b : ℕ} → some a ≡ some b → a ≡ b
some_inv e = cc

pos_inv : {a b : ℕ} → pos a ≡ pos b → a ≡ b
pos_inv e = cc

no_colon : (d y : Str) → All (λ b. is_digit b ≡ true) (d ++ b':' ∷ y) → ⊥
no_colon [] y h = ground arith
no_colon (b ∷ d) y h = no_colon d y h.1

-- The last colon of a document's name is the one that `indexGen` writes.
split_colon :
    (c d : Str) (x y : Str)
    → All (λ b. is_digit b ≡ true) x
    → All (λ b. is_digit b ≡ true) y
    → c ++ b':' ∷ x ≡ d ++ b':' ∷ y
    → (c ≡ d) × (x ≡ y)
split_colon [] [] x y p q e = (refl, cc)
split_colon [] (b ∷ d) x y p q e =
    absurd (no_colon d y (subst (All (λ b. is_digit b ≡ true)) (tail_eq e) p))
split_colon (a ∷ c) [] x y p q e =
    absurd (no_colon c x (subst (All (λ b. is_digit b ≡ true)) (sym (tail_eq e)) q))
split_colon (a ∷ c) (b ∷ d) x y p q e =
    let (same, rest) = split_colon c d x y p q (tail_eq e) in (ap₂ ◌∷◌ (head_eq e) same, rest)

-- A document's name determines the conversation and the document.
index_gen_injective : (c d : Str) (m n : ℕ) → index_gen c m ≡ index_gen d n → (c ≡ d) × (m ≡ n)
unfolding index_gen
index_gen_injective c d m n e =
    let (same, digits) =
      split_colon c d (format_int m) (format_int n) (format_int-All m) (format_int-All n) (
        sym (append_assoc c (codes ":") (format_int m))
        ∙ e
        ∙ append_assoc d (codes ":") (format_int n)) in
    (same, some_inv (sym (format_int-value m) ∙ ap (digits_value 0) digits ∙ format_int-value n))

-- Two messages, of any conversations, lie at the same index of the same document only if they have
-- the same conversation and the same sequence number. Sequence numbers begin at 1.
pub place_injective :
    (c d : Str) (m n : ℕ)
    → 0 < m
    → 0 < n
    → get_doc_id c m ≡ get_doc_id d n
    → get_msg_index m ≡ get_msg_index n
    → (c ≡ d) × (m ≡ n)
unfolding get_doc_id doc_suffix get_msg_index
place_injective c d zero n h k e i = absurd (omega arith)
place_injective c d (suc m) zero h k e i = absurd (omega arith)
place_injective c d (suc m) (suc n) h k e i =
    let (same, suffix) = index_gen_injective c d _ _ e in
    let r : m % 100 ≡ n % 100 = pos_inv i in (same, omega arith)
