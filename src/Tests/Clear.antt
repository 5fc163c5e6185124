-- ===== src/Tests/Clear.antt =====
-- A user clears a conversation of seven messages.
use k.Base.{
  ◌≡◌, refl, ℕ, true, false, if◌then◌else◌, none, some, List, [], ◌∷◌, Str, codes, str_eq,
  str_eq_refl, str_dec, lookup, Distinct, ok,
}
use k.MsgStore.Range.{SeqReply, seq_is, seq_nil, Env, no_range, get_msg_by_seqs_range}
use k.MsgClear.{
  SeqStore, ClearContext, clear_conversations_msg, clear_conversation, set_all, set_seqs,
  get_min_seqs, check_access_v3, validate_delete_sync_opt,
}
use k.MsgClear.Laws.{KeepsUserMin, cleared_reads_nothing}

abbrev conv : Str
conv = codes "sg_g"

abbrev maxs : List (Str × ℕ)
maxs = (conv, 7) ∷ []

-- The least numbers, by conversation and user; one conversation has messages.
abbrev mins : SeqStore
mins = record {
  Store = Str → Str → SeqReply;
  get_max_seqs = λ s ids. some maxs;
  get_conversation_user_min_seq = λ s c u. s c u;
  set_conversation_user_min_seq = λ s c u n. (
    (λ c' u'. if str_eq c c' then (if str_eq u u' then seq_is n else s c' u') else s c' u'),
    true,
  );
  set_min_seq = λ s c n. (s, true);
  set_has_read_seq = λ s u c n. (s, true);
}

mins_laws : KeepsUserMin mins
mins_laws = record {
  read_min = λ s conv c user n h. rw (str_eq_refl user) refl;
  has_read_apart = λ s conv c user n. refl;
}

maxs-Distinct : Distinct str_dec maxs
unfolding lookup
maxs-Distinct = (refl, tt)

abbrev context : ClearContext
context = record {
  op_user_id = codes "a";
  managers = [];
  get_conversations_by_conversation_id = λ ids. some ids;
  get_conversation_ids = λ user. some (conv ∷ []);
}

abbrev at_first : mins.Store
at_first = λ c u. seq_nil

cleared : (clear_conversations_msg mins context at_first (conv ∷ []) (codes "a") none).1 ≡ none
unfolding clear_conversations_msg check_access_v3 clear_conversation validate_delete_sync_opt
    set_all set_seqs get_min_seqs str_dec
cleared = refl

alone : (validate_delete_sync_opt none).1 ≡ false
unfolding validate_delete_sync_opt
alone = refl

the_last : lookup str_dec conv maxs ≡ some 7
unfolding lookup str_dec
the_last = refl

abbrev answers : Env
answers = record {
  conversation_user_min_seq =
      (clear_conversations_msg mins context at_first (conv ∷ []) (codes "a") none).0 conv
        (codes "a");
  min_seq = seq_nil;
  max_seq = seq_is 7;
  get_messages_by_seq = λ seqs. ([], seqs);
  get_user_del_list = some [];
  get_from_docs = λ seqs. none;
}

ranged : get_msg_by_seqs_range 9 answers 1 7 10 0 ≡ ok no_range
unfolding get_msg_by_seqs_range clear_conversations_msg check_access_v3 clear_conversation
    validate_delete_sync_opt set_all set_seqs get_min_seqs str_dec
ranged = refl

cleared_reads_nothing_example : no_range.msgs ≡ []
cleared_reads_nothing_example =
    cleared_reads_nothing mins mins_laws (codes "a") conv context at_first (conv ∷ []) (conv ∷ [])
      none maxs 7 answers 9 1 7 10 0 no_range alone refl refl maxs-Distinct the_last cleared refl
      refl ranged
