-- ===== src/MsgStore/Expiry/Chosen.antt =====
-- Which documents the recursion over a conversation chooses for deletion.
use k.Base.{
  ◌≡◌, ◌∙◌, refl, sym, subst, inl, inr, Bool-cases, Option-cases, Result-cases, none, some, List,
  [], ◌∷◌, ok_inv, ok, ℕ, zero, suc, ◌+◌, ◌*◌, ◌<◌, ◌≤◌, Str, str_eq, All, All-append, arith,
}
use k.MsgStore.Doc.{MsgDataModel, MsgDocModel, last_msg}
use k.MsgStore.Expiry.{
  DocDeletions, DelMsgRecursionStruct, expired, seq_at, last_index, expired_from, whole_document,
  delete_in_document, one_document, walk,
}

-- The deletion of messages in the document at one index leaves the documents at later ones.
abbrev pub LeavesLater : DocDeletions → Type 0
LeavesLater D =
    (s : D.Store) (index i : ℕ) (d : MsgDocModel) (is : List ℕ)
    → D.get_msg_doc_model_by_index s index ≡ some d
    → index < i
    → D.get_msg_doc_model_by_index (D.delete_msgs_in_one_doc_by_index s d.doc_id is) i
      ≡ D.get_msg_doc_model_by_index s i

module _ (D : DocDeletions) (now remain : ℕ) where
  delete_in_document_later :
      (s : D.Store) (index i : ℕ) (st : DelMsgRecursionStruct) (d : MsgDocModel) (is : List ℕ)
      → LeavesLater D
      → D.get_msg_doc_model_by_index s index ≡ some d
      → index < i
      → D.get_msg_doc_model_by_index (delete_in_document D now remain s st d is).0 i
        ≡ D.get_msg_doc_model_by_index s i
  unfolding delete_in_document
  delete_in_document_later s index i st d [] h e l = refl
  delete_in_document_later s index i st d (j ∷ js) h e l =
      elim (Option-cases (seq_at d.msgs (last_index j js))) [
        | inl p ↦ rw (p, delete_in_document) (h s index i d (j ∷ js) e l)
        | inr (m, p) ↦ rw (p, delete_in_document) (h s index i d (j ∷ js) e l)
      ]

  one_document_later :
      (s : D.Store) (index i : ℕ) (st : DelMsgRecursionStruct) (d : MsgDocModel)
      → LeavesLater D
      → D.get_msg_doc_model_by_index s index ≡ some d
      → index < i
      → D.get_msg_doc_model_by_index (one_document D now remain s st d).0 i
        ≡ D.get_msg_doc_model_by_index s i
  unfolding one_document
  one_document_later s index i st d h e l = elim (Result-cases (whole_document now remain d)) [
    | inl (x, p) ↦ rw (p, one_document) refl
    | inr (some m, p) ↦ rw (p, one_document) refl
    | inr (none, p) ↦
        rw (p, one_document)
          (delete_in_document_later s index i st d (expired_from now remain 0 d.msgs) h e l)
  ]

  delete_in_document_ids :
      (s : D.Store) (st st' : DelMsgRecursionStruct) (d : MsgDocModel) (is : List ℕ)
      → (delete_in_document D now remain s st d is).1 ≡ ok st'
      → st'.del_doc_ids ≡ st.del_doc_ids
  unfolding delete_in_document
  delete_in_document_ids s st st' d [] e = ground arith
  delete_in_document_ids s st st' d (j ∷ js) e = ground arith

  -- A document with this name is there, and its last message is old enough.
  abbrev pub Outdated : D.Store → Str → Type 0
  Outdated s id =
      (i : ℕ) × (d : MsgDocModel) × (D.get_msg_doc_model_by_index s i ≡ some d)
      × (d.doc_id ≡ id)
      × (m : MsgDataModel) × (last_msg d.msgs ≡ some (some m))
      × (m.send_time + remain * 1000 < now)

  whole_document-Outdated :
      (s : D.Store) (i n : ℕ) (d : MsgDocModel)
      → D.get_msg_doc_model_by_index s i ≡ some d
      → whole_document now remain d ≡ ok (some n)
      → Outdated s d.doc_id
  unfolding whole_document expired
  whole_document-Outdated s i n d e h = elim (Option-cases (last_msg d.msgs)) [
    | inl p ↦ absurd (ground arith)
    | inr (none, p) ↦ absurd (ground arith)
    | inr (some m, p) ↦ (i, d, e, refl, m, p, ground arith)
  ]

  module _ (P : Str → Type 0) where
    one_document_ids :
        (s : D.Store) (st st' : DelMsgRecursionStruct) (d : MsgDocModel)
        → ((n : ℕ) → whole_document now remain d ≡ ok (some n) → P d.doc_id)
        → All P st.del_doc_ids
        → (one_document D now remain s st d).1 ≡ ok st'
        → All P st'.del_doc_ids
    unfolding one_document
    one_document_ids s st st' d h a e = elim (Result-cases (whole_document now remain d)) [
      | inl (x, p) ↦ absurd (ground arith)
      | inr (some m, p) ↦
          let e' = rw (p, one_document) at e in
          subst (λ r. All P r.del_doc_ids) (ok_inv e')
            (All-append P st.del_doc_ids (d.doc_id ∷ []) a (h m p, tt))
      | inr (none, p) ↦
          let e' = rw (p, one_document) at e in
          let same = delete_in_document_ids s st st' d (expired_from now remain 0 d.msgs) e' in
          subst (λ l. All P l) (sym same) a
    ]

    walk_ids :
        (fuel : ℕ) (s : D.Store) (index : ℕ) (st st' : DelMsgRecursionStruct)
        → LeavesLater D
        → ((i n : ℕ) (d : MsgDocModel)
            → index ≤ i
            → D.get_msg_doc_model_by_index s i ≡ some d
            → whole_document now remain d ≡ ok (some n)
            → P d.doc_id)
        → All P st.del_doc_ids
        → (walk D now remain fuel s index st).1 ≡ ok st'
        → All P st'.del_doc_ids
    unfolding walk
    walk_ids zero s index st st' l h a e = absurd (ground arith)
    walk_ids (suc fuel) s index st st' l h a e =
        let ih = walk_ids fuel in
        elim (Option-cases (D.get_msg_doc_model_by_index s index)) [
          | inl p ↦ let e' = rw (p, walk) at e in subst (λ r. All P r.del_doc_ids) (ok_inv e') a
          | inr (d, p) ↦ elim (Bool-cases (str_eq d.doc_id [])) [
            | inl q ↦
                let e' = rw (p, q, walk) at e in subst (λ r. All P r.del_doc_ids) (ok_inv e') a
            | inr q ↦ elim (Result-cases (one_document D now remain s st d).1) [
              | inl (x, t) ↦ let e' = rw (p, q, t, walk) at e in absurd (cc)
              | inr (r, t) ↦
                  let e' = rw (p, q, t, walk) at e in
                  ih (one_document D now remain s st d).0 (index + 1) r st' l
                    (λ i n c b g.
                      h i n c (omega arith)
                        (sym (one_document_later s index i st d l p (omega arith)) ∙ g))
                    (one_document_ids s st r d (λ n. h index n d (omega arith) p) a t) e'
            ]
          ]
        ]

  -- The documents that deleteMsgRecursion hands to DeleteDocs are documents of the conversation
  -- as it was at the call, whose last message is older than the time that remains, if a deletion
  -- of messages in one document leaves those at later indexes as they are.
  pub walk-Outdated :
      (fuel : ℕ) (s : D.Store) (st : DelMsgRecursionStruct)
      → LeavesLater D
      → (walk D now remain fuel s 0 (record { min_seq = 0; del_doc_ids = [] })).1 ≡ ok st
      → All (Outdated s) st.del_doc_ids
  walk-Outdated fuel s st l e =
      walk_ids (Outdated s) fuel s 0 (record { min_seq = 0; del_doc_ids = [] }) st l
        (λ i n d b. whole_document-Outdated s i n d) tt e
