-- ===== src/Tests/Store.antt =====
-- Messages that cross a document's end.
use k.Base.{
  ◌≡◌, ◌≢◌, refl, true, false, none, some, List, [], ◌∷◌, map, Str, str_dec, format_int, codes,
  arith, ℕ, inr, if◌then◌else◌, str_eq,
}
use k.Tests.Collection.{Documents, in_memory, in_memory_view, in_memory_laws, in_memory-CreatesOne}
use k.MsgStore.Doc.{MsgDataModel, MsgInfoModel, RevokeModel, get_doc_id, get_msg_index}
use k.MsgStore.Convert.{MsgData, chat_model, msg_db2pb, chat_model_round_trip}
use k.MsgStore.Block.{
  update_key_msg, Field, done, out_of_fuel, batch_insert_block, check_fields, fill, info_of, blank,
}
use k.MsgStore.Block.Termination.{batch_insert_block_ends}
use k.MsgStore.Block.Stored.{Stored, batch_insert_block-Stored}
use k.MsgStore.Chat.{block, chat_field, batch_insert_chat2db, revoke_msg}
use k.MsgStore.Chat.Reader.{read_msg}
use k.MsgStore.Chat.Laws.{ReadBack, batch_insert_chat2db-ReadBack}
use k.MsgStore.Chat.Revocation.{noticed, revoke_msg_lem}

abbrev conv : Str
conv = codes "si_a_b"

abbrev pub message : ℕ → MsgData
message n = record {
  send_id = codes "a";
  recv_id = codes "b";
  group_id = [];
  client_msg_id = codes "c";
  server_msg_id = codes "s";
  sender_platform_id = 1;
  sender_nickname = [];
  sender_face_url = [];
  session_type = 1;
  msg_from = 100;
  content_type = 101;
  content = codes "hello";
  seq = n;
  send_time = 5;
  create_time = 4;
  status = 2;
  is_read = true;
  options = [];
  offline_push_info = none;
  at_user_id_list = [];
  attached_info = [];
  ex = [];
  key_version = 7;
}

abbrev two_messages : List MsgData
two_messages = message 100 ∷ message 101 ∷ []

abbrev two_fields : List Field
two_fields = map (λ m. chat_field (some m)) two_messages

abbrev no_documents : Documents
no_documents = λ d. none

two_messages_done :
    (batch_insert_block in_memory update_key_msg conv no_documents two_fields 100).1 ≡ done
unfolding batch_insert_block check_fields chat_model fill str_dec get_doc_id format_int info_of
    get_msg_index
two_messages_done = refl

batch_insert_block-Stored_example :
    Stored in_memory in_memory_view in_memory_laws update_key_msg conv
      (batch_insert_block in_memory update_key_msg conv no_documents two_fields 100).0
      100
      two_fields
batch_insert_block-Stored_example =
    batch_insert_block-Stored in_memory in_memory_view in_memory_laws update_key_msg conv
      no_documents two_fields 100 (omega arith) two_messages_done

abbrev filled : Documents
filled = (batch_insert_block in_memory update_key_msg conv no_documents two_fields 100).0

batch_insert_block_ends_example :
    (batch_insert_block in_memory update_key_msg conv no_documents two_fields 100).1 ≢ out_of_fuel
batch_insert_block_ends_example =
    batch_insert_block_ends in_memory in_memory_view in_memory_laws update_key_msg conv no_documents
      two_fields 100

-- The document of 100 is there, and its elements are marked as read.
abbrev one_document : Documents
one_document = λ d.
    if str_eq d (get_doc_id conv 100)
    then some (λ z. some (record blank { is_read = true }))
    else none

two_chats_done :
    (batch_insert_chat2db in_memory conv one_document (map some two_messages)).1 ≡ block done
unfolding batch_insert_chat2db batch_insert_block check_fields chat_model fill str_dec get_doc_id
    format_int info_of get_msg_index
two_chats_done = refl

abbrev notice_of : RevokeModel → MsgDataModel → Str
notice_of r m = r.nickname

abbrev somebody : Str
somebody = codes "b"

batch_insert_chat2db-ReadBack_example :
    ReadBack notice_of somebody in_memory in_memory_view conv one_document
      (batch_insert_chat2db in_memory conv one_document (map some two_messages)).0
      100
      two_messages
batch_insert_chat2db-ReadBack_example =
    batch_insert_chat2db-ReadBack notice_of somebody in_memory in_memory_view conv in_memory_laws
      in_memory-CreatesOne one_document (message 100) (message 101 ∷ []) (omega arith)
      two_chats_done

abbrev revocation : RevokeModel
revocation = record { role = 100; user_id = codes "a"; nickname = codes "A"; time = 9 }

other : ◌≢◌ {A = ℕ} 100 101
other e = omega arith

abbrev last_element : MsgInfoModel
last_element = record blank { msg = some (chat_model (message 101)) }

second_document : in_memory_view.has filled (get_doc_id conv 101) ≡ true
unfolding batch_insert_block check_fields chat_model fill str_dec get_doc_id format_int info_of
    get_msg_index
second_document = refl

last_filled :
    in_memory_view.cell filled (get_doc_id conv 101) (get_msg_index 101) ≡ some last_element
unfolding batch_insert_block check_fields chat_model fill str_dec get_doc_id format_int info_of
    get_msg_index
last_filled = refl

revoked : (revoke_msg in_memory conv filled 101 revocation).1 ≡ done
unfolding revoke_msg batch_insert_block check_fields chat_model fill str_dec get_doc_id format_int
    info_of get_msg_index
revoked = refl

revoke_msg_lem_example :
    (read_msg notice_of somebody in_memory in_memory_view conv
        (revoke_msg in_memory conv filled 101 revocation).0
        101
      ≡ some (noticed notice_of somebody last_element revocation (chat_model (message 101))))
    × (read_msg notice_of somebody in_memory in_memory_view conv
          (revoke_msg in_memory conv filled 101 revocation).0
          100
        ≡ read_msg notice_of somebody in_memory in_memory_view conv filled 100)
revoke_msg_lem_example =
    revoke_msg_lem notice_of somebody in_memory in_memory_view in_memory_laws conv filled 101
      revocation last_element (chat_model (message 101)) conv 100 (omega arith) second_document
      last_filled refl (omega arith) (inr other) revoked

chat_model_round_trip_example :
    msg_db2pb (chat_model (message 3)) ≡ record (message 3) { is_read = false }
chat_model_round_trip_example = chat_model_round_trip (message 3)
