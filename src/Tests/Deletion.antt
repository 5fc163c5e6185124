-- ===== src/Tests/Deletion.antt =====
-- Two of three messages are deleted, across a document's end.
use k.Base.{
  ◌≡◌, ◌&&◌, ◌||◌, ◌<◌, refl, ℤ, ℤ_dec, is_yes, Bool, true, false, [], ◌∷◌, Str, codes, str_eq, any,
  arith, All, lookup, store, str_dec, format_int,
}
use k.MsgStore.Doc.{get_doc_id_seqs_map, get_doc_id, get_msg_index}
use k.MsgStore.Doc.Places.{has_seq}
use k.MsgStore.Deletion.{
  DeletionStore, delete_docs, push_docs, push_seqs, cached, delete_msgs_physical_by_seqs,
  delete_user_msgs_by_seqs,
}
use k.MsgStore.Deletion.Laws.{Marks, physical_deletion, user_deletion}

-- The second document of the conversation is there, the first is not.
abbrev there : Str → Bool
there d = str_eq d (codes "si_a_b:1")

-- Which places are empty, and which users have deleted what lies there.
abbrev Places : Type 0
Places = (Str → ℤ → Bool) × (Str → Str → ℤ → Bool)

abbrev places : DeletionStore
places = record {
  Store = Places;
  delete_messages = λ s conv seqs. (s, true);
  get_messages_by_seq = λ s conv seqs. cached seqs;
  user_delete_msgs = λ s conv seqs user. (s, true);
  delete_msgs_in_one_doc_by_index = λ s doc indexes.
      ((λ d i. s.0 d i || (str_eq doc d && any (λ j. is_yes (ℤ_dec j i)) indexes), s.1), true);
  push_unique = λ s doc j user. (
    (
      s.0,
      λ u d i. s.1 u d i || (there d && (str_eq user u && (str_eq doc d && is_yes (ℤ_dec j i)))),
    ),
    true,
  );
  range_order = λ t. t;
}

abbrev places_marks : Marks places
places_marks = record {
  has = λ s d. there d;
  gone = λ s d i. s.0 d i;
  hidden = λ s u d i. s.1 u d i;
  gone_cache = λ s conv d seqs i. refl;
  gone_doc = λ s doc d indexes i ok. refl;
  hidden_cache = λ s conv user u d seqs i. refl;
  hidden_push = λ s doc d user u j i ok. refl;
  has_cache = λ s conv user d seqs. refl;
  has_push = λ s doc d user j. refl;
  visits = λ t d i. refl;
}

abbrev nothing : Places
nothing = (λ d i. false, λ u d i. false)

abbrev conv : Str
conv = codes "si_a_b"

both_positive : All (λ m. 0 < m) (100 ∷ 101 ∷ [])
both_positive = (omega arith, (omega arith, tt))

physical_succeeds : (delete_msgs_physical_by_seqs places nothing conv (100 ∷ 101 ∷ [])).1 ≡ true
unfolding delete_msgs_physical_by_seqs delete_docs get_doc_id_seqs_map get_doc_id format_int lookup
    store str_dec
physical_succeeds = refl

physical_deletion_example :
    places_marks.gone
      (delete_msgs_physical_by_seqs places nothing conv (100 ∷ 101 ∷ [])).0
      (get_doc_id conv 99)
      (get_msg_index 99)
    ≡ (false || has_seq 99 (100 ∷ 101 ∷ []))
physical_deletion_example =
    physical_deletion places places_marks nothing conv (100 ∷ 101 ∷ []) 99 (omega arith)
      both_positive physical_succeeds

user_succeeds : (delete_user_msgs_by_seqs places nothing (codes "a") conv (100 ∷ 101 ∷ [])).1 ≡ true
unfolding delete_user_msgs_by_seqs push_docs push_seqs get_doc_id_seqs_map get_doc_id format_int
    lookup store str_dec
user_succeeds = refl

user_deletion_example :
    places_marks.hidden
      (delete_user_msgs_by_seqs places nothing (codes "a") conv (100 ∷ 101 ∷ [])).0
      (codes "a")
      (get_doc_id conv 101)
      (get_msg_index 101)
    ≡ (false
        || (there (get_doc_id conv 101)
            && (str_eq (codes "a") (codes "a") && has_seq 101 (100 ∷ 101 ∷ []))))
user_deletion_example =
    user_deletion places places_marks nothing (codes "a") (codes "a") conv (100 ∷ 101 ∷ []) 101
      (omega arith) both_positive user_succeeds
