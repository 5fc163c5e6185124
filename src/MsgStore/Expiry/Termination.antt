-- ===== src/MsgStore/Expiry/Termination.antt =====
-- The recursion over the documents ends, and the call with it.
use k.Base.{
  ◌≡◌, ◌≢◌, ◌∙◌, inl, inr, Bool-cases, Option-cases, Result-cases, none, some, List, [], ◌∷◌, err,
  ℕ, zero, suc, ◌+◌, ◌<◌, ◌≤◌, Str, str_eq, arith,
}
use k.MsgStore.Doc.{MsgDocModel}
use k.MsgStore.Expiry.{
  DocDeletions, MinSeqCache, out_of_fuel, DelMsgRecursionStruct, seq_at, last_index, expired_from,
  whole_document, delete_in_document, one_document, walk, delete_msg_recursion,
  set_conversation_min_seq, delete_conversation_msgs_and_set_min_seq,
}

whole_document_ends :
    (now remain : ℕ) (d : MsgDocModel) → whole_document now remain d ≢ err out_of_fuel
unfolding whole_document
whole_document_ends now remain d = ground arith

-- The deletion of messages makes no document.
abbrev pub MakesNone : DocDeletions → Type 0
MakesNone D =
    (s : D.Store) (i : ℕ) (id : Str) (is : List ℕ)
    → D.get_msg_doc_model_by_index s i ≡ none
    → D.get_msg_doc_model_by_index (D.delete_msgs_in_one_doc_by_index s id is) i ≡ none

module _ (D : DocDeletions) (now remain : ℕ) where
  one_document_ends :
      (s : D.Store) (st : DelMsgRecursionStruct) (d : MsgDocModel)
      → (one_document D now remain s st d).1 ≢ err out_of_fuel
  unfolding one_document delete_in_document
  one_document_ends s st d = ground (arith, whole_document_ends now remain d)

  delete_in_document-none :
      (s : D.Store) (st : DelMsgRecursionStruct) (d : MsgDocModel) (is : List ℕ) (n : ℕ)
      → MakesNone D
      → D.get_msg_doc_model_by_index s n ≡ none
      → D.get_msg_doc_model_by_index (delete_in_document D now remain s st d is).0 n ≡ none
  unfolding delete_in_document
  delete_in_document-none s st d [] n h e = e
  delete_in_document-none s st d (i ∷ is) n h e =
      elim (Option-cases (seq_at d.msgs (last_index i is))) [
        | inl p ↦ rw (p, delete_in_document) (h s n d.doc_id (i ∷ is) e)
        | inr (m, p) ↦ rw (p, delete_in_document) (h s n d.doc_id (i ∷ is) e)
      ]

  one_document-none :
      (s : D.Store) (st : DelMsgRecursionStruct) (d : MsgDocModel) (n : ℕ)
      → MakesNone D
      → D.get_msg_doc_model_by_index s n ≡ none
      → D.get_msg_doc_model_by_index (one_document D now remain s st d).0 n ≡ none
  unfolding one_document
  one_document-none s st d n h e = elim (Result-cases (whole_document now remain d)) [
    | inl (x, p) ↦ rw (p, one_document) e
    | inr (none, p) ↦
        rw (p, one_document)
          (delete_in_document-none s st d (expired_from now remain 0 d.msgs) n h e)
    | inr (some m, p) ↦ rw (p, one_document) e
  ]

  pub below :
      (s : D.Store) (index n : ℕ) (d : MsgDocModel)
      → D.get_msg_doc_model_by_index s index ≡ some d
      → D.get_msg_doc_model_by_index s n ≡ none
      → index ≤ n
      → index + 1 ≤ n
  below s index n d p e a = grind arith

  walk_ends :
      (fuel : ℕ) (s : D.Store) (index n : ℕ) (st : DelMsgRecursionStruct)
      → MakesNone D
      → D.get_msg_doc_model_by_index s n ≡ none
      → index ≤ n
      → n < index + fuel
      → (walk D now remain fuel s index st).1 ≢ err out_of_fuel
  unfolding walk
  walk_ends zero s index n st h e a b = absurd (omega arith)
  walk_ends (suc fuel) s index n st h e a b =
      let ih = walk_ends fuel in
      elim (Option-cases (D.get_msg_doc_model_by_index s index)) [
        | inl p ↦ rw (p, walk) λ x. absurd (cc)
        | inr (d, p) ↦ elim (Bool-cases (str_eq d.doc_id [])) [
          | inl q ↦ rw (p, q, walk) λ x. absurd (cc)
          | inr q ↦ elim (Result-cases (one_document D now remain s st d).1) [
            | inl (x, t) ↦ rw (p, q, t, walk) λ z. one_document_ends s st d (t ∙ z)
            | inr (st', t) ↦
                rw (p, q, t, walk)
                  (ih (one_document D now remain s st d).0 (index + 1) n st' h
                    (one_document-none s st d n h e) (below s index n d p e a) (omega arith))
          ]
        ]
      ]

  -- A call of DeleteConversationMsgsAndSetMinSeq ends where the conversation has no document at the index
  -- n: n + 1 rounds are enough, if the deletion of messages makes no document.
  pub delete_conversation_msgs_ends :
      (C : MinSeqCache) (s : D.Store) (c : C.Cache) (n : ℕ)
      → MakesNone D
      → D.get_msg_doc_model_by_index s n ≡ none
      → (delete_conversation_msgs_and_set_min_seq D now remain C (suc n) s c).2 ≢ err out_of_fuel
  unfolding delete_conversation_msgs_and_set_min_seq delete_msg_recursion set_conversation_min_seq
  delete_conversation_msgs_ends C s c n h e =
      ground (arith, walk_ends (suc n) s 0 n (record { min_seq = 0; del_doc_ids = [] }) h e)
