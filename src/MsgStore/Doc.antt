-- ===== src/MsgStore/Doc.antt =====
-- pkg/common/db/table/unrelation/msg.go: a conversation's messages lie in documents of 100.
-- Sequence numbers are natural numbers; the operations also say what they give at 0, where Go's
-- division and remainder round towards 0.
pub mod Laws
pub mod Places
use k.Base.{
  ℕ, zero, suc, ◌-◌, ◌/◌, ◌%◌, Bool, true, false, Option, none, some, List, [], ◌∷◌, ◌++◌, Str,
  str_dec, codes, lookup, store, format_int, ℤ, pos, negsuc,
}

-- int64 and bool fields as the source has them.
pub record OfflinePushModel : Type 0 where
  pub title : Str
  pub desc : Str
  pub ex : Str
  pub ios_push_sound : Str
  pub ios_badge_count : Bool

pub record MsgDataModel : Type 0 where
  pub send_id : Str
  pub recv_id : Str
  pub group_id : Str
  pub client_msg_id : Str
  pub server_msg_id : Str
  pub sender_platform_id : ℕ
  pub sender_nickname : Str
  pub sender_face_url : Str
  pub session_type : ℕ
  pub msg_from : ℕ
  pub content_type : ℕ
  pub content : Str
  pub seq : ℕ
  pub send_time : ℕ
  pub create_time : ℕ
  pub status : ℕ
  pub is_read : Bool
  pub options : List (Str × Bool)
  pub offline_push : Option OfflinePushModel
  pub at_user_id_list : List Str
  pub attached_info : Str
  pub ex : Str
  pub key_version : ℕ

pub record RevokeModel : Type 0 where
  pub role : ℕ
  pub user_id : Str
  pub nickname : Str
  pub time : ℕ

pub record MsgInfoModel : Type 0 where
  pub msg : Option MsgDataModel
  pub revoke : Option RevokeModel
  pub del_list : List Str
  pub is_read : Bool

pub record MsgDocModel : Type 0 where
  pub doc_id : Str
  pub msgs : List (Option MsgInfoModel)

abbrev pub single_goc_msg_num : ℕ
single_goc_msg_num = 100

unfoldable pub index_gen : Str → ℕ → Str
index_gen conversation_id suffix = conversation_id ++ codes ":" ++ format_int suffix

-- `(seq - 1) / 100`, which is 0 at 0.
unfoldable pub doc_suffix : ℕ → ℕ
doc_suffix seq = (seq - 1) / single_goc_msg_num

unfoldable pub get_doc_id : Str → ℕ → Str
unfolding index_gen doc_suffix
get_doc_id conversation_id seq = index_gen conversation_id (doc_suffix seq)

-- `(seq - 1) % 100`, which is -1 at 0.
unfoldable pub get_msg_index : ℕ → ℤ
get_msg_index zero = negsuc 0
get_msg_index (suc n) = pos (n % single_goc_msg_num)

abbrev pub SeqsMap : Type 0
SeqsMap = List (Str × List ℕ)

add_seq : Str → ℕ → Option (List ℕ) → SeqsMap → SeqsMap
add_seq doc_id seq none t = store str_dec doc_id (seq ∷ []) t
add_seq doc_id seq (some value) t = store str_dec doc_id (value ++ seq ∷ []) t

-- The loop of `GetDocIDSeqsMap` over the rest of `seqs`, with the map so far.
doc_id_seqs_from : Str → List ℕ → SeqsMap → SeqsMap
unfolding add_seq
doc_id_seqs_from conversation_id [] t = t
doc_id_seqs_from conversation_id (seq ∷ seqs) t =
    let doc_id = get_doc_id conversation_id seq in
    doc_id_seqs_from conversation_id seqs (add_seq doc_id seq (lookup str_dec doc_id t) t)

unfoldable pub get_doc_id_seqs_map : Str → List ℕ → SeqsMap
unfolding doc_id_seqs_from
get_doc_id_seqs_map conversation_id seqs = doc_id_seqs_from conversation_id seqs []

-- `IsFull`: the last message of the document is there. An empty document makes the access panic.
unfoldable pub last_msg : List (Option MsgInfoModel) → Option (Option MsgDataModel)
last_msg [] = none
last_msg (none ∷ []) = none
last_msg (some i ∷ []) = some i.msg
last_msg (i ∷ j ∷ is) = last_msg (j ∷ is)

unfoldable pub is_full : MsgDocModel → Option Bool
unfolding last_msg
is_full d = elim (last_msg d.msgs) [
  | none ↦ none
  | some none ↦ some false
  | some (some m) ↦ some true
]
