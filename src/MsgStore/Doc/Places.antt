-- ===== src/MsgStore/Doc/Places.antt =====
-- Which places the groups of `GetDocIDSeqsMap` name.
use k.Base.{
  sym, some_eq, subst, if_pos, if_neg, All-append, ◌≡◌, ◌∙◌, refl, ap, inl, inr, ℕ, ◌<◌, ◌==◌,
  ==→eq, eq→==, ℤ, ℤ_dec, is_yes, Bool, Bool-cases, Option-cases, false, ◌&&◌, ◌||◌, none, some,
  List, [], ◌∷◌, ◌++◌, Str, str_dec, str_eq, lookup, store, any, any-append, All, arith,
}
use k.MsgStore.Doc.{
  get_doc_id, get_msg_index, SeqsMap, add_seq, doc_id_seqs_from, get_doc_id_seqs_map,
}
use k.MsgStore.Doc.Laws.{place_injective}

abbrev pub is_at : ℤ → ℕ → Bool
is_at i seq = is_yes (ℤ_dec (get_msg_index seq) i)

-- A group for the document d has a number for the index i.
abbrev pub holds : Str → ℤ → SeqsMap → Bool
holds d i [] = false
holds d i ((doc, seqs) ∷ t) = (str_eq doc d && any (is_at i) seqs) || holds d i t

store_old :
    (d k : Str) (i : ℤ) (seq : ℕ) (v : List ℕ) (t : SeqsMap)
    → lookup str_dec k t ≡ some v
    → holds d i (store str_dec k (v ++ seq ∷ []) t) ≡ (holds d i t || (str_eq k d && is_at i seq))
unfolding lookup store
store_old d k i seq v [] h = cc
store_old d k i seq v ((j, w) ∷ t) h =
    let both = any-append (is_at i) v (seq ∷ []) in ground (arith, both, store_old d k i seq v t)

store_fresh :
    (d k : Str) (i : ℤ) (seq : ℕ) (t : SeqsMap)
    → lookup str_dec k t ≡ none
    → holds d i (store str_dec k (seq ∷ []) t) ≡ (holds d i t || (str_eq k d && is_at i seq))
unfolding lookup store
store_fresh d k i seq [] h = ground arith
store_fresh d k i seq ((j, w) ∷ t) h = ground (arith, store_fresh d k i seq t)

-- Whether a number of the conversation lies at the index i of the document d.
abbrev lies : Str → Str → ℤ → ℕ → Bool
lies conv d i seq = str_eq (get_doc_id conv seq) d && is_at i seq

add_seq-holds :
    (conv d : Str) (i : ℤ) (seq : ℕ) (t : SeqsMap)
    → holds d i (add_seq (get_doc_id conv seq) seq (lookup str_dec (get_doc_id conv seq) t) t)
      ≡ (holds d i t || lies conv d i seq)
unfolding add_seq
add_seq-holds conv d i seq t =
    let k = get_doc_id conv seq in
    elim (Option-cases (lookup str_dec k t)) [
      | inl e ↦ rw e (store_fresh d k i seq t e)
      | inr (v, e) ↦ rw e (store_old d k i seq v t e)
    ]

doc_id_seqs_from-holds :
    (conv d : Str) (i : ℤ) (seqs : List ℕ) (t : SeqsMap)
    → holds d i (doc_id_seqs_from conv seqs t) ≡ (holds d i t || any (lies conv d i) seqs)
unfolding doc_id_seqs_from
doc_id_seqs_from-holds conv d i [] t = ground arith
doc_id_seqs_from-holds conv d i (seq ∷ seqs) t =
    let k = get_doc_id conv seq in
    doc_id_seqs_from-holds conv d i seqs (add_seq k seq (lookup str_dec k t) t)
    ∙ ap (λ b. b || any (lies conv d i) seqs) (add_seq-holds conv d i seq t)
    ∙ ground arith

abbrev pub has_seq : ℕ → List ℕ → Bool
has_seq n seqs = any (λ m. m == n) seqs

lies-same :
    (conv : Str) (n m : ℕ)
    → 0 < n
    → 0 < m
    → lies conv (get_doc_id conv n) (get_msg_index n) m ≡ (m == n)
lies-same conv n m h k = elim (Bool-cases (m == n)) [
  | inl e ↦ let same = ==→eq m n e in rw same (ground arith)
  | inr e ↦
      let apart =
        λ (d : get_doc_id conv m ≡ get_doc_id conv n) (i : get_msg_index m ≡ get_msg_index n).
          eq→== m n (place_injective conv conv m n k h d i).1 in
      ground (arith, apart)
]

any-lies :
    (conv : Str) (n : ℕ) (seqs : List ℕ)
    → 0 < n
    → All (λ m. 0 < m) seqs
    → any (lies conv (get_doc_id conv n) (get_msg_index n)) seqs ≡ has_seq n seqs
any-lies conv n [] h k = refl
any-lies conv n (m ∷ seqs) h (k, l) =
    ground (arith, lies-same conv n m h k, any-lies conv n seqs h l)

-- The groups name the place of a number exactly if the number is among those that were grouped.
pub get_doc_id_seqs_map-holds :
    (conv : Str) (n : ℕ) (seqs : List ℕ)
    → 0 < n
    → All (λ m. 0 < m) seqs
    → holds (get_doc_id conv n) (get_msg_index n) (get_doc_id_seqs_map conv seqs) ≡ has_seq n seqs
unfolding get_doc_id_seqs_map
get_doc_id_seqs_map-holds conv n seqs h k =
    doc_id_seqs_from-holds conv (get_doc_id conv n) (get_msg_index n) seqs []
    ∙ any-lies conv n seqs h k

-- What holds of each group.
abbrev pub Groups : (Str → List ℕ → Type 0) → SeqsMap → Type 0
Groups P t = All (λ (entry : Str × List ℕ). P entry.0 entry.1) t

Groups-store :
    (P : Str → List ℕ → Type 0) (k : Str) (v : List ℕ) (t : SeqsMap)
    → Groups P t
    → P k v
    → Groups P (store str_dec k v t)
unfolding store
Groups-store P k v [] g h = (h, tt)
Groups-store P k v ((j, w) ∷ t) (a, g) h = elim (str_dec j k) [
  | yes p ↦ subst (Groups P) (sym (if_pos (str_dec j k) p _ _)) (h, g)
  | no n ↦ subst (Groups P) (sym (if_neg (str_dec j k) n _ _)) (a, Groups-store P k v t g h)
]

Groups-lookup :
    (P : Str → List ℕ → Type 0) (k : Str) (v : List ℕ) (t : SeqsMap)
    → Groups P t
    → lookup str_dec k t ≡ some v
    → P k v
unfolding lookup
Groups-lookup P k v [] g h = cc
Groups-lookup P k v ((j, w) ∷ t) (a, g) h = elim (str_dec j k) [
  | yes p ↦
      let same = some_eq (sym (if_pos (str_dec j k) p (some w) (lookup str_dec k t)) ∙ h) in
      subst (λ x. P k x) same (subst (λ x. P x w) p a)
  | no n ↦ Groups-lookup P k v t g (sym (if_neg (str_dec j k) n (some w) (lookup str_dec k t)) ∙ h)
]

-- The numbers of a group belong to its document, and satisfy Q.
abbrev pub InDoc : Str → (ℕ → Type 0) → Str → List ℕ → Type 0
InDoc conv Q doc seqs = All (λ n. (get_doc_id conv n ≡ doc) × Q n) seqs

add_seq-Groups :
    (conv : Str) (Q : ℕ → Type 0) (seq : ℕ) (t : SeqsMap)
    → Groups (InDoc conv Q) t
    → Q seq
    → let k = get_doc_id conv seq in Groups (InDoc conv Q) (add_seq k seq (lookup str_dec k t) t)
unfolding add_seq
add_seq-Groups conv Q seq t g q =
    let k = get_doc_id conv seq in
    elim (Option-cases (lookup str_dec k t)) [
      | inl e ↦ rw e (Groups-store (InDoc conv Q) k (seq ∷ []) t g ((refl, q), tt))
      | inr (v, e) ↦ rw e (
          Groups-store (InDoc conv Q) k (v ++ seq ∷ []) t g
            (All-append _ v (seq ∷ []) (Groups-lookup (InDoc conv Q) k v t g e) ((refl, q), tt)))
    ]

doc_id_seqs_from-Groups :
    (conv : Str) (Q : ℕ → Type 0) (seqs : List ℕ) (t : SeqsMap)
    → Groups (InDoc conv Q) t
    → All Q seqs
    → Groups (InDoc conv Q) (doc_id_seqs_from conv seqs t)
unfolding doc_id_seqs_from
doc_id_seqs_from-Groups conv Q [] t g h = g
doc_id_seqs_from-Groups conv Q (seq ∷ seqs) t g (q, h) =
    doc_id_seqs_from-Groups conv Q seqs _ (add_seq-Groups conv Q seq t g q) h

-- Each group holds numbers of its document, and only such as were grouped.
pub get_doc_id_seqs_map-Groups :
    (conv : Str) (Q : ℕ → Type 0) (seqs : List ℕ)
    → All Q seqs
    → Groups (InDoc conv Q) (get_doc_id_seqs_map conv seqs)
unfolding get_doc_id_seqs_map
get_doc_id_seqs_map-Groups conv Q seqs h = doc_id_seqs_from-Groups conv Q seqs [] tt h

-- One number gives one group.
pub get_doc_id_seqs_map_one :
    (conv : Str) (seq : ℕ)
    → get_doc_id_seqs_map conv (seq ∷ []) ≡ (get_doc_id conv seq, seq ∷ []) ∷ []
unfolding get_doc_id_seqs_map doc_id_seqs_from add_seq lookup store
get_doc_id_seqs_map_one conv seq = refl
