-- ===== src/MsgStore/Expiry/Reset.antt =====
-- What the call does to a conversation where nothing is old enough.
use k.Base.{
  ◌≡◌, ◌≢◌, refl, ap, inl, inr, Bool-cases, Option-cases, true, Option, none, some, List, [], ◌∷◌,
  ok, ℕ, zero, suc, ◌+◌, ◌*◌, ◌<◌, ◌≤◌, ◌==◌, str_eq, if◌then◌else◌, All, arith,
}
use k.MsgStore.Doc.{MsgDataModel, MsgInfoModel, MsgDocModel, last_msg}
use k.MsgStore.Expiry.{
  DocDeletions, MinSeqCache, DelMsgRecursionStruct, expired, msg_of, add_expired, expired_from,
  whole_document, delete_in_document, one_document, walk, delete_msg_recursion,
  set_conversation_min_seq, delete_conversation_msgs_and_set_min_seq,
}
use k.MsgStore.Expiry.Termination.{below}

-- None of the messages is older than `remain` seconds.
abbrev pub AllFresh : ℕ → ℕ → List (Option MsgInfoModel) → Type 0
AllFresh now remain xs =
    All (λ x. (m : MsgDataModel) → msg_of x ≡ some m → now ≤ m.send_time + remain * 1000) xs

fresh_none_expired :
    (now remain i : ℕ) (xs : List (Option MsgInfoModel))
    → AllFresh now remain xs
    → expired_from now remain i xs ≡ []
unfolding expired_from add_expired expired
fresh_none_expired now remain i [] h = refl
fresh_none_expired now remain i (x ∷ xs) (f, h) = elim (Option-cases (msg_of x)) [
  | inl p ↦ rw p (fresh_none_expired now remain (i + 1) xs h)
  | inr (m, p) ↦
      let ih = fresh_none_expired now remain (i + 1) xs h in
      let old = f m p in rw (p, ih) ground arith
]

fresh_last :
    (now remain : ℕ) (xs : List (Option MsgInfoModel)) (m : MsgDataModel)
    → AllFresh now remain xs
    → last_msg xs ≡ some (some m)
    → now ≤ m.send_time + remain * 1000
unfolding last_msg msg_of
fresh_last now remain [] m h e = cc
fresh_last now remain (none ∷ []) m h e = cc
fresh_last now remain (some i ∷ []) m (f, h) e = f m (cc)
fresh_last now remain (x ∷ y ∷ xs) m (f, h) e = fresh_last now remain (y ∷ xs) m h e

fresh_kept :
    (now remain : ℕ) (d : MsgDocModel)
    → last_msg d.msgs ≢ none
    → AllFresh now remain d.msgs
    → whole_document now remain d ≡ ok none
unfolding whole_document expired
fresh_kept now remain d ne h = elim (Option-cases (last_msg d.msgs)) [
  | inl p ↦ absurd (ne p)
  | inr (none, p) ↦ rw (p, whole_document) refl
  | inr (some m, p) ↦
      let old = fresh_last now remain d.msgs m h p in rw (p, whole_document) ground arith
]

module _ (D : DocDeletions) (now remain : ℕ) where
  -- The last element of each document is there, and no message is old enough.
  abbrev pub NothingExpired : D.Store → Type 0
  NothingExpired s =
      (i : ℕ) (d : MsgDocModel)
      → D.get_msg_doc_model_by_index s i ≡ some d
      → (last_msg d.msgs ≢ none) × AllFresh now remain d.msgs

  one_document_fresh :
      (s : D.Store) (st : DelMsgRecursionStruct) (d : MsgDocModel)
      → last_msg d.msgs ≢ none
      → AllFresh now remain d.msgs
      → one_document D now remain s st d ≡ (s, ok st)
  unfolding one_document delete_in_document
  one_document_fresh s st d ne h =
      rw (fresh_kept now remain d ne h, fresh_none_expired now remain 0 d.msgs h, one_document) refl

  walk_fresh :
      (fuel : ℕ) (s : D.Store) (index n : ℕ) (st : DelMsgRecursionStruct)
      → NothingExpired s
      → D.get_msg_doc_model_by_index s n ≡ none
      → index ≤ n
      → n < index + fuel
      → walk D now remain fuel s index st ≡ (s, ok st)
  unfolding walk
  walk_fresh zero s index n st h e a b = absurd (omega arith)
  walk_fresh (suc fuel) s index n st h e a b =
      let ih = walk_fresh fuel s (index + 1) n st h e in
      elim (Option-cases (D.get_msg_doc_model_by_index s index)) [
        | inl p ↦ rw (p, walk) refl
        | inr (d, p) ↦ elim (Bool-cases (str_eq d.doc_id [])) [
          | inl q ↦ rw (p, q, walk) refl
          | inr q ↦
              let (ne, fresh) = h index d p in
              let same = one_document_fresh s st d ne fresh in
              rw (p, q, ap (λ r. r.1) same, ap (λ r. r.0) same, walk)
                (ih (below D now remain s index n d p e a) (omega arith))
        ]
      ]

  recursion_fresh :
      (s : D.Store) (n : ℕ)
      → NothingExpired s
      → D.get_msg_doc_model_by_index s n ≡ none
      → D.delete_docs s [] ≡ (s, true)
      → delete_msg_recursion D now remain (suc n) s 0 (record { min_seq = 0; del_doc_ids = [] })
        ≡ (s, ok 1)
  unfolding delete_msg_recursion
  recursion_fresh s n h e g =
      let w =
        walk_fresh (suc n) s 0 n (record { min_seq = 0; del_doc_ids = [] }) h e (omega arith)
          (omega arith) in
      rw
        (
          ap (λ r. r.1) w,
          ap (λ r. r.0) w,
          ap (λ r. r.1) g,
          ap (λ r. r.0) w,
          ap (λ r. r.0) g,
          delete_msg_recursion,
        )
        refl

  -- DeleteConversationMsgsAndSetMinSeq deletes nothing where no message is old enough, but it sets
  -- the least sequence number of the conversation to 1, whatever it was: the guard that asks
  -- whether the number is 0 never holds, as the recursion adds 1. The last element
  -- of each document must be there, and the deletion of no documents must succeed and change
  -- nothing.
  pub NothingExpired-resets :
      (C : MinSeqCache) (s : D.Store) (c : C.Cache) (n : ℕ)
      → NothingExpired s
      → D.get_msg_doc_model_by_index s n ≡ none
      → D.delete_docs s [] ≡ (s, true)
      → let r = delete_conversation_msgs_and_set_min_seq D now remain C (suc n) s c in
        (r.0 ≡ s)
        × (r.1
            ≡ (C.set_min_seq
                (if remain == 0 then C.clean_up_one_conversation_all_msg c else c)
                1).0)
  unfolding delete_conversation_msgs_and_set_min_seq delete_msg_recursion set_conversation_min_seq
  NothingExpired-resets C s c n h e g =
      let w = recursion_fresh s n h e g in
      rw (ap (λ r. r.1) w, ap (λ r. r.0) w, delete_conversation_msgs_and_set_min_seq) (refl, refl)
