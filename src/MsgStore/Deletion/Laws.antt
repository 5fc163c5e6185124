-- ===== src/MsgStore/Deletion/Laws.antt =====
-- Which messages a deletion by numbers takes.
use k.Base.{
  ◌≡◌, ◌∙◌, refl, ap, ℕ, ◌<◌, ℤ, ℤ_dec, is_yes, Bool, true, false, ◌&&◌, ◌||◌, List, [], ◌∷◌, map,
  Str, str_eq, any, All, arith,
}
use k.MsgStore.Doc.{get_doc_id, get_msg_index, SeqsMap, get_doc_id_seqs_map}
use k.MsgStore.Doc.Places.{is_at, holds, has_seq, get_doc_id_seqs_map-holds}
use k.MsgStore.Deletion.{
  DeletionStore, and_then, delete_docs, delete_msgs_physical_by_seqs, push_seqs, push_docs,
  delete_cached, CacheReply, cached, cache_error, delete_user_msgs_by_seqs,
}

-- What is assumed of the collection: which documents there are, whether the message at a place is
-- gone, whether a user has deleted it, what a write changes of that (a PushUnique to a document that
-- is not there changes nothing, and is no error), and that the entries of a map are visited.
pub record Marks (db : DeletionStore) : Type 1 where
  pub has : db.Store → Str → Bool
  pub gone : db.Store → Str → ℤ → Bool
  pub hidden : db.Store → Str → Str → ℤ → Bool
  pub gone_cache :
      (s : db.Store) (conv d : Str) (seqs : List ℕ) (i : ℤ)
      → gone (db.delete_messages s conv seqs).0 d i ≡ gone s d i
  pub gone_doc :
      (s : db.Store) (doc d : Str) (indexes : List ℤ) (i : ℤ)
      → (db.delete_msgs_in_one_doc_by_index s doc indexes).1 ≡ true
      → gone (db.delete_msgs_in_one_doc_by_index s doc indexes).0 d i
        ≡ (gone s d i || (str_eq doc d && any (λ j. is_yes (ℤ_dec j i)) indexes))
  pub hidden_cache :
      (s : db.Store) (conv user u d : Str) (seqs : List ℕ) (i : ℤ)
      → hidden (db.user_delete_msgs s conv seqs user).0 u d i ≡ hidden s u d i
  pub hidden_push :
      (s : db.Store) (doc d user u : Str) (j i : ℤ)
      → (db.push_unique s doc j user).1 ≡ true
      → hidden (db.push_unique s doc j user).0 u d i
        ≡ (hidden s u d i || (has s d && (str_eq user u && (str_eq doc d && is_yes (ℤ_dec j i)))))
  pub has_cache :
      (s : db.Store) (conv user d : Str) (seqs : List ℕ)
      → has (db.user_delete_msgs s conv seqs user).0 d ≡ has s d
  pub has_push :
      (s : db.Store) (doc d user : Str) (j : ℤ) → has (db.push_unique s doc j user).0 d ≡ has s d
  pub visits : (t : SeqsMap) (d : Str) (i : ℤ) → holds d i (db.range_order t) ≡ holds d i t

any-index :
    (i : ℤ) (seqs : List ℕ)
    → any (λ j. is_yes (ℤ_dec j i)) (map get_msg_index seqs) ≡ any (is_at i) seqs
any-index i [] = refl
any-index i (seq ∷ seqs) = ap (λ b. is_at i seq || b) (any-index i seqs)

module _ (db : DeletionStore) (laws : Marks db) where
  open db use {Store}
  open laws use {has, gone, hidden}

  -- Two steps that both succeed.
  and_then-true :
      (step : Store × Bool) (next : Store → Store × Bool)
      → (and_then db step next).1 ≡ true
      → (step.1 ≡ true) × ((next step.0).1 ≡ true) × (and_then db step next ≡ next step.0)
  and_then-true (s, true) next h = (refl, h, refl)
  and_then-true (s, false) next h = cc

  delete_docs-gone :
      (t : SeqsMap) (s : Store) (d : Str) (i : ℤ)
      → (delete_docs db t s).1 ≡ true
      → gone (delete_docs db t s).0 d i ≡ (gone s d i || holds d i t)
  unfolding delete_docs
  delete_docs-gone [] s d i h = ground arith
  delete_docs-gone ((doc, seqs) ∷ t) s d i h =
      let step = db.delete_msgs_in_one_doc_by_index s doc (map get_msg_index seqs) in
      let (a, b, e) = and_then-true step (delete_docs db t) h in
      let first = laws.gone_doc s doc d (map get_msg_index seqs) i a in
      let rest = delete_docs-gone t step.0 d i b in
      ap (λ (o : Store × Bool). gone o.0 d i) e ∙ rest ∙ ground (arith, first, any-index i seqs)

  -- A successful DeleteMsgsPhysicalBySeqs takes from the documents just the messages of the conversation that have one of
  -- the numbers, through any number of documents and in whichever order these are visited.
  pub physical_deletion :
      (s : Store) (conv : Str) (seqs : List ℕ) (n : ℕ)
      → 0 < n
      → All (λ m. 0 < m) seqs
      → (delete_msgs_physical_by_seqs db s conv seqs).1 ≡ true
      → gone (delete_msgs_physical_by_seqs db s conv seqs).0 (get_doc_id conv n) (get_msg_index n)
        ≡ (gone s (get_doc_id conv n) (get_msg_index n) || has_seq n seqs)
  unfolding delete_msgs_physical_by_seqs
  physical_deletion s conv seqs n h k ok =
      let d = get_doc_id conv n in
      let i = get_msg_index n in
      let t = get_doc_id_seqs_map conv seqs in
      let step = db.delete_messages s conv seqs in
      let (a, b, e) = and_then-true step (delete_docs db (db.range_order t)) ok in
      ap (λ (o : Store × Bool). gone o.0 d i) e
      ∙ delete_docs-gone (db.range_order t) step.0 d i b
      ∙ ap (λ c. c || holds d i (db.range_order t)) (laws.gone_cache s conv d seqs i)
      ∙ ap (λ c. gone s d i || c) (laws.visits t d i ∙ get_doc_id_seqs_map-holds conv n seqs h k)

  -- Whatever a step answers, what holds of its store and of all that follows holds of both.
  and_then-has :
      (b : Bool) (d : Str) (step : Store × Bool) (next : Store → Store × Bool)
      → has step.0 d ≡ b
      → has (next step.0).0 d ≡ b
      → has (and_then db step next).0 d ≡ b
  and_then-has b d (s, true) next h k = k
  and_then-has b d (s, false) next h k = h

  push_seqs-has :
      (doc user : Str) (seqs : List ℕ) (s : Store) (d : Str)
      → has (push_seqs db doc user seqs s).0 d ≡ has s d
  unfolding push_seqs
  push_seqs-has doc user [] s d = refl
  push_seqs-has doc user (seq ∷ seqs) s d =
      let step = db.push_unique s doc (get_msg_index seq) user in
      let one = laws.has_push s doc d user (get_msg_index seq) in
      and_then-has (has s d) d step (push_seqs db doc user seqs) one
        (push_seqs-has doc user seqs step.0 d ∙ one)

  push_seqs-hidden :
      (doc user : Str) (seqs : List ℕ) (s : Store) (u d : Str) (i : ℤ)
      → (push_seqs db doc user seqs s).1 ≡ true
      → hidden (push_seqs db doc user seqs s).0 u d i
        ≡ (hidden s u d i || (has s d && (str_eq user u && (str_eq doc d && any (is_at i) seqs))))
  unfolding push_seqs
  push_seqs-hidden doc user [] s u d i h = ground arith
  push_seqs-hidden doc user (seq ∷ seqs) s u d i h =
      let step = db.push_unique s doc (get_msg_index seq) user in
      let (a, b, e) = and_then-true step (push_seqs db doc user seqs) h in
      let first = laws.hidden_push s doc d user u (get_msg_index seq) i a in
      let same = laws.has_push s doc d user (get_msg_index seq) in
      let rest = push_seqs-hidden doc user seqs step.0 u d i b in
      ap (λ (o : Store × Bool). hidden o.0 u d i) e ∙ rest ∙ ground (arith, first, same)

  push_docs-hidden :
      (user : Str) (t : SeqsMap) (s : Store) (u d : Str) (i : ℤ)
      → (push_docs db user t s).1 ≡ true
      → hidden (push_docs db user t s).0 u d i
        ≡ (hidden s u d i || (has s d && (str_eq user u && holds d i t)))
  unfolding push_docs
  push_docs-hidden user [] s u d i h = ground arith
  push_docs-hidden user ((doc, seqs) ∷ t) s u d i h =
      let step = push_seqs db doc user seqs s in
      let (a, b, e) = and_then-true step (push_docs db user t) h in
      let first = push_seqs-hidden doc user seqs s u d i a in
      let same = push_seqs-has doc user seqs s d in
      let rest = push_docs-hidden user t step.0 u d i b in
      ap (λ (o : Store × Bool). hidden o.0 u d i) e ∙ rest ∙ ground (arith, first, same)

  delete_cached-hidden :
      (s : Store) (user conv u d : Str) (i : ℤ) (r : CacheReply)
      → (hidden (delete_cached db s user conv r).0 u d i ≡ hidden s u d i)
        × (has (delete_cached db s user conv r).0 d ≡ has s d)
  unfolding delete_cached
  delete_cached-hidden s user conv u d i cache_error = (refl, refl)
  delete_cached-hidden s user conv u d i (cached []) = (refl, refl)
  delete_cached-hidden s user conv u d i (cached (n ∷ ns)) =
      (laws.hidden_cache s conv user u d (n ∷ ns) i, laws.has_cache s conv user d (n ∷ ns))

  -- A successful DeleteUserMsgsBySeqs marks in the documents, as deleted by the user, just the
  -- messages of the conversation that have one of the numbers and whose document is there; a number
  -- whose document is not there yet is not marked, and nothing is marked for anybody else.
  pub user_deletion :
      (s : Store) (user u conv : Str) (seqs : List ℕ) (n : ℕ)
      → 0 < n
      → All (λ m. 0 < m) seqs
      → (delete_user_msgs_by_seqs db s user conv seqs).1 ≡ true
      → hidden
          (delete_user_msgs_by_seqs db s user conv seqs).0
          u
          (get_doc_id conv n)
          (get_msg_index n)
        ≡ (hidden s u (get_doc_id conv n) (get_msg_index n)
            || (has s (get_doc_id conv n) && (str_eq user u && has_seq n seqs)))
  unfolding delete_user_msgs_by_seqs
  user_deletion s user u conv seqs n h k ok =
      let d = get_doc_id conv n in
      let i = get_msg_index n in
      let t = get_doc_id_seqs_map conv seqs in
      let step = delete_cached db s user conv (db.get_messages_by_seq s conv seqs) in
      let (a, b, e) = and_then-true step (push_docs db user (db.range_order t)) ok in
      let (same, there) =
        delete_cached-hidden s user conv u d i (db.get_messages_by_seq s conv seqs) in
      ap (λ (o : Store × Bool). hidden o.0 u d i) e
      ∙ push_docs-hidden user (db.range_order t) step.0 u d i b
      ∙ ap (λ c. c || (has step.0 d && (str_eq user u && holds d i (db.range_order t)))) same
      ∙ ap (λ c. hidden s u d i || (c && (str_eq user u && holds d i (db.range_order t)))) there
      ∙ ap (λ c. hidden s u d i || (has s d && (str_eq user u && c)))
          (laws.visits t d i ∙ get_doc_id_seqs_map-holds conv n seqs h k)
