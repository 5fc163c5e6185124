-- ===== src/Tests/Collection.antt =====
-- A collection of documents in memory, as the insertion of blocks asks for one.
use k.Base.{
  ◌≡◌, ◌≢◌, ◌⊎◌, refl, ap, inl, inr, ◌∙◌, Bool, Bool-cases, Option-cases, true, false,
  if◌then◌else◌, Option, none, some, Str, str_eq, str_eq_refl, ℤ, ℤ_dec, ℤ_dec_refl, is_yes, arith,
}
use k.MsgStore.Doc.{MsgInfoModel, MsgDocModel}
use k.MsgStore.Block.{
  Field, UpdateKey, UpdateReply, matched, CreateReply, created, duplicate_key, MsgDocStore,
}
use k.MsgStore.Block.Laws.{put_field, or_blank, slot_at, View, IsCollection, CreatesOne}

-- A document is the elements by their index.
abbrev pub Elements : Type 0
Elements = ℤ → Option MsgInfoModel

abbrev pub Documents : Type 0
Documents = Str → Option Elements

abbrev write_element : Elements → ℤ → MsgInfoModel → Elements
write_element g z i y = if is_yes (ℤ_dec y z) then some i else g y

abbrev write_document : Documents → Str → Elements → Documents
write_document s d g e = if str_eq e d then some g else s e

abbrev update_found :
    Option Elements → Documents → Str → ℤ → UpdateKey → Field → Documents × UpdateReply
update_found none s d z key f = (s, matched false)
update_found (some g) s d z key f =
    (write_document s d (write_element g z (put_field key f (or_blank (g z)))), matched true)

abbrev create_found : Option Elements → Documents → MsgDocModel → Documents × CreateReply
create_found (some g) s doc = (s, duplicate_key)
create_found none s doc = (write_document s doc.doc_id (slot_at doc.msgs), created)

abbrev pub in_memory : MsgDocStore
in_memory = record {
  Store = Documents;
  update_msg = λ s d z key f. update_found (s d) s d z key f;
  create = λ s doc. create_found (s doc.doc_id) s doc;
}

abbrev is_some : Option Elements → Bool
is_some none = false
is_some (some g) = true

abbrev element : Option Elements → ℤ → Option MsgInfoModel
element none z = none
element (some g) z = g z

abbrev pub in_memory_view : View in_memory
in_memory_view = record { has = λ s d. is_some (s d); cell = λ s d z. element (s d) z }

str_same : (a b : Str) → str_eq a b ≡ true → a ≡ b
str_same a b h = ground arith

ℤ_ne : (a b : ℤ) → a ≢ b → is_yes (ℤ_dec a b) ≡ false
ℤ_ne a b h = ground arith

update_has :
    (s : Documents) (d : Str) (z : ℤ) (key : UpdateKey) (f : Field) (e : Str)
    → is_some ((update_found (s d) s d z key f).0 e) ≡ is_some (s e)
update_has s d z key f e = elim (Option-cases (s d)) [
  | inl n ↦ rw n refl
  | inr (g, n) ↦ elim (Bool-cases (str_eq e d)) [
    | inr k ↦ rw (n, k) refl
    | inl k ↦ rw (n, k, str_same e d k, n) refl
  ]
]

update_matched :
    (s : Documents) (d : Str) (z : ℤ) (key : UpdateKey) (f : Field)
    → (update_found (s d) s d z key f).1 ≡ matched (is_some (s d))
update_matched s d z key f = elim (Option-cases (s d)) [
  | inl n ↦ rw n refl
  | inr (g, n) ↦ rw n refl
]

update_cell :
    (s : Documents) (d : Str) (z : ℤ) (key : UpdateKey) (f : Field)
    → (update_found (s d) s d z key f).1 ≡ matched true
    → element ((update_found (s d) s d z key f).0 d) z
      ≡ some (put_field key f (or_blank (element (s d) z)))
update_cell s d z key f h = elim (Option-cases (s d)) [
  | inl n ↦ let h' = rw n at h in cc
  | inr (g, n) ↦ rw (n, str_eq_refl d, ℤ_dec_refl z) refl
]

update_other :
    (s : Documents) (d : Str) (z : ℤ) (key : UpdateKey) (f : Field) (e : Str) (y : ℤ)
    → ((e ≢ d) ⊎ (y ≢ z))
    → element ((update_found (s d) s d z key f).0 e) y ≡ element (s e) y
update_other s d z key f e y h = elim (Option-cases (s d)) [
  | inl n ↦ rw n refl
  | inr (g, n) ↦ elim (Bool-cases (str_eq e d)) [
    | inr k ↦ rw (n, k) refl
    | inl k ↦ elim h [
      | inl p ↦ absurd (p (str_same e d k))
      | inr q ↦ rw (n, k, ℤ_ne y z q, str_same e d k, n) refl
    ]
  ]
]

create_duplicate :
    (s : Documents) (doc : MsgDocModel)
    → (create_found (s doc.doc_id) s doc).1 ≡ duplicate_key
    → is_some (s doc.doc_id) ≡ true
create_duplicate s doc h = elim (Option-cases (s doc.doc_id)) [
  | inl n ↦ let h' = rw n at h in cc
  | inr (g, n) ↦ rw n refl
]

create_created :
    (s : Documents) (doc : MsgDocModel)
    → (create_found (s doc.doc_id) s doc).1 ≡ created
    → s doc.doc_id ≡ none
create_created s doc h = elim (Option-cases (s doc.doc_id)) [
  | inl n ↦ n
  | inr (g, n) ↦ let h' = rw n at h in cc
]

create_cell :
    (s : Documents) (doc : MsgDocModel)
    → (create_found (s doc.doc_id) s doc).1 ≡ created
    → (create_found (s doc.doc_id) s doc).0 doc.doc_id ≡ some (slot_at doc.msgs)
create_cell s doc h = rw (create_created s doc h, str_eq_refl doc.doc_id) refl

create_keeps :
    (s : Documents) (doc : MsgDocModel) (e : Str)
    → is_some (s e) ≡ true
    → (create_found (s doc.doc_id) s doc).0 e ≡ s e
create_keeps s doc e h = elim (Option-cases (s doc.doc_id)) [
  | inr (g, n) ↦ rw n refl
  | inl n ↦ elim (Bool-cases (str_eq e doc.doc_id)) [
    | inr k ↦ rw (n, k) refl
    | inl k ↦ let h' = rw (str_same e doc.doc_id k, n) at h in cc
  ]
]

pub in_memory_laws : IsCollection in_memory in_memory_view
in_memory_laws = record {
  update_has = update_has;
  update_matched = λ s d z key f. inl (update_matched s d z key f);
  update_cell = update_cell;
  update_other = update_other;
  create_duplicate = create_duplicate;
  create_created = λ s doc h. ap is_some (create_created s doc h);
  create_has = λ s doc h. ap is_some (create_cell s doc h);
  create_cell = λ s doc z h. ap (λ (o : Option Elements). element o z) (create_cell s doc h);
  create_keeps_has = λ s doc e h. ap is_some (create_keeps s doc e h) ∙ h;
  create_keeps_cell =
      λ s doc e y h. ap (λ (o : Option Elements). element o y) (create_keeps s doc e h);
}

create_other :
    (s : Documents) (doc : MsgDocModel) (e : Str)
    → e ≢ doc.doc_id
    → is_some ((create_found (s doc.doc_id) s doc).0 e) ≡ is_some (s e)
create_other s doc e h = elim (Option-cases (s doc.doc_id)) [
  | inr (g, n) ↦ rw n refl
  | inl n ↦ elim (Bool-cases (str_eq e doc.doc_id)) [
    | inr k ↦ rw (n, k) refl
    | inl k ↦ absurd (h (str_same e doc.doc_id k))
  ]
]

pub in_memory-CreatesOne : CreatesOne in_memory in_memory_view
in_memory-CreatesOne = record { create_other = create_other }
