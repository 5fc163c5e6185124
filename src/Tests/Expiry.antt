-- ===== src/Tests/Expiry.antt =====
-- The deletion of old messages, over documents in a list.
use k.Base.{
  ◌≡◌, ◌≢◌, refl, inl, inr, Bool-cases, true, false, not, Option, none, some, some_eq, List, [],
  ◌∷◌, err, ℕ, zero, suc, ◌+◌, ◌*◌, ◌≤◌, Str, str_eq, str_eq_refl, codes, str_dec, if◌then◌else◌,
  keep, set, get_elem?, All, arith, subst,
}
use k.MsgStore.Doc.{MsgDataModel, MsgInfoModel, MsgDocModel, last_msg}
use k.MsgStore.Expiry.{
  DocDeletions, MinSeqCache, out_of_fuel, walk, delete_conversation_msgs_and_set_min_seq, msg_of,
}
use k.MsgStore.Expiry.Termination.{MakesNone, delete_conversation_msgs_ends}
use k.MsgStore.Expiry.Reset.{AllFresh, NothingExpired, NothingExpired-resets}
use k.MsgStore.Expiry.Chosen.{LeavesLater, Outdated, walk-Outdated}

-- `{"msg": nil}` in place of the elements at the indexes.
abbrev blank : List (Option MsgInfoModel) → List ℕ → List (Option MsgInfoModel)
blank xs [] = xs
blank xs (i ∷ is) =
    blank (set xs i (some (record { msg = none; revoke = none; del_list = []; is_read = false })))
      is

abbrev blank_in : List MsgDocModel → Str → List ℕ → List MsgDocModel
blank_in [] id is = []
blank_in (d ∷ ds) id is =
    let rest = blank_in ds id is in
    if str_eq d.doc_id id
    then record { doc_id = d.doc_id; msgs = blank d.msgs is } ∷ ds
    else d ∷ rest

abbrev remove : List MsgDocModel → List Str → List MsgDocModel
remove ds [] = ds
remove ds (id ∷ ids) = remove (keep (λ d. not (str_eq d.doc_id id)) ds) ids

abbrev listed : DocDeletions
listed = record {
  Store = List MsgDocModel;
  get_msg_doc_model_by_index = get_elem?;
  delete_msgs_in_one_doc_by_index = blank_in;
  delete_docs = λ ds ids. (remove ds ids, true);
}

abbrev one_number : MinSeqCache
one_number = record {
  Cache = ℕ;
  clean_up_one_conversation_all_msg = λ c. c;
  set_min_seq = λ c n. (n, true);
}

listed-MakesNone : MakesNone listed
listed-MakesNone [] i id is h = refl
listed-MakesNone (d ∷ ds) zero id is h = cc
listed-MakesNone (d ∷ ds) (suc i) id is h = elim (Bool-cases (str_eq d.doc_id id)) [
  | inl p ↦ rw p h
  | inr p ↦ rw p (listed-MakesNone ds i id is h)
]

listed-LeavesLater : LeavesLater listed
listed-LeavesLater [] index i d is h l = refl
listed-LeavesLater (x ∷ ds) index zero d is h l = absurd (omega arith)
listed-LeavesLater (x ∷ ds) zero (suc i) d is h l = rw (some_eq h, str_eq_refl d.doc_id) refl
listed-LeavesLater (x ∷ ds) (suc index) (suc i) d is h l =
    elim (Bool-cases (str_eq x.doc_id d.doc_id)) [
      | inl p ↦ rw p refl
      | inr p ↦ rw p (listed-LeavesLater ds index i d is h (omega arith))
    ]

-- A message that was sent at a time.
abbrev message : ℕ → ℕ → MsgDataModel
message n time = record {
  send_id = codes "a";
  recv_id = codes "b";
  group_id = [];
  client_msg_id = codes "c";
  server_msg_id = codes "s";
  sender_platform_id = 1;
  sender_nickname = [];
  sender_face_url = [];
  session_type = 1;
  msg_from = 1;
  content_type = 101;
  content = [];
  seq = n;
  send_time = time;
  create_time = time;
  status = 1;
  is_read = false;
  options = [];
  offline_push = none;
  at_user_id_list = [];
  attached_info = [];
  ex = [];
  key_version = 0;
}

abbrev document : Str → MsgDataModel → MsgDocModel
document id m = record {
  doc_id = id;
  msgs = some (record { msg = some m; revoke = none; del_list = []; is_read = false }) ∷ [];
}

abbrev two_documents : List MsgDocModel
two_documents =
    document (codes "c:0") (message 1 0) ∷ document (codes "c:1") (message 101 9000) ∷ []

delete_conversation_msgs_ends_example :
    (delete_conversation_msgs_and_set_min_seq listed 5000 1 one_number 3 two_documents 0).2
    ≢ err out_of_fuel
delete_conversation_msgs_ends_example =
    delete_conversation_msgs_ends listed 5000 1 one_number two_documents 0 2 listed-MakesNone refl

walk-Outdated_example : All (Outdated listed 5000 1 two_documents) (codes "c:0" ∷ [])
unfolding walk str_dec
walk-Outdated_example =
    walk-Outdated listed 5000 1 3 two_documents
      (record { min_seq = 1; del_doc_ids = codes "c:0" ∷ [] }) listed-LeavesLater (refl)

abbrev fresh : MsgDocModel
fresh = document (codes "c:1") (message 101 9000)

fresh_last_there : last_msg fresh.msgs ≢ none
unfolding last_msg
fresh_last_there e = cc

fresh-NothingExpired : NothingExpired listed 5000 1 (fresh ∷ [])
unfolding msg_of
fresh-NothingExpired zero d h =
    subst (λ d. (last_msg d.msgs ≢ none) × AllFresh 5000 1 d.msgs) (some_eq h)
      (
        fresh_last_there,
        (λ m e. subst (λ x. 5000 ≤ x.send_time + 1 * 1000) (some_eq e) (omega arith), tt),
      )
fresh-NothingExpired (suc i) d h = cc

NothingExpired-resets_example :
    let r = delete_conversation_msgs_and_set_min_seq listed 5000 1 one_number 2 (fresh ∷ []) 57 in
    (r.0 ≡ fresh ∷ []) × (r.1 ≡ 1)
NothingExpired-resets_example =
    NothingExpired-resets listed 5000 1 one_number (fresh ∷ []) 57 1 fresh-NothingExpired refl refl
