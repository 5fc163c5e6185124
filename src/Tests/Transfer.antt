-- ===== src/Tests/Transfer.antt =====
-- Messages on their way from the queue to the documents.
use k.Base.{
  ◌≡◌, ◌+◌, ◌++◌, ◌==◌, refl, true, false, none, some, List, [], ◌∷◌, map, length, Str, str_dec,
  codes, format_int, lookup, Option, if◌then◌else◌,
}
use k.Constant.{key_is_offline_push, key_is_unread_count, key_is_not_notification}
use k.Tests.Collection.{Documents, in_memory, in_memory_view, in_memory_laws, in_memory-CreatesOne}
use k.MsgStore.Doc.{RevokeModel, MsgDataModel, get_doc_id, get_msg_index}
use k.MsgStore.Convert.{MsgData, chat_model}
use k.MsgStore.Block.{done, batch_insert_block, check_fields, fill, info_of}
use k.MsgStore.Chat.{block, batch_insert_chat2db}
use k.MsgStore.Chat.Laws.{ReadBack}
use k.MsgStore.Range.{SeqReply, seq_is, seq_nil}
use k.MsgProcessor.Options.{is, is_not_notification}
use k.MsgProcessor.Conversation.{
  Msg, get_chat_conversation_id_by_msg, get_notification_conversation_id_by_msg,
}
use k.MsgTransfer.Numbering.{
  MsgCache, number, insert_numbered, insert_after, batch_insert_chat2cache,
}
use k.MsgTransfer.Numbering.Laws.{Consecutive, KeepsMaxSeq, batches_follow}
use k.MsgTransfer.Numbering.Storing.{transferred-ReadBack}
use k.MsgTransfer.Sorting.{is_send_msg, Sorted, clone_of, sorted_form, get_push_storage_msg_list}
use k.MsgTransfer.Sorting.Clones.{notification_clone}
use k.MsgTransfer.Handler.{Services, Transfer, handle_msg, named, run, handle_notification}
use k.MsgTransfer.Handler.Accounts.{Adds, accepted, run-Adds}
use k.MsgTransfer.Distribution.{ConsumerMessage, Distributor, channel_of, distribute_all}
use k.MsgTransfer.Distribution.Order.{messages_of, decoded, flatten, distribute_all-order}

-- The cache is the last number of one conversation.
abbrev one_conversation : MsgCache
one_conversation = record {
  Cache = SeqReply;
  get_max_seq = λ c conv. c;
  set_message = λ c conv m. (c, true);
  set_max_seq = λ c conv n. (seq_is n, true);
  set_has_read_seqs = λ c conv t. (c, true);
}

keeps : (conv : Str) → KeepsMaxSeq one_conversation conv
keeps conv = record { read_written = λ c n h. refl; has_read_apart = λ c t. refl }

abbrev conv : Str
conv = codes "si_a_b"

abbrev message : Str → MsgData
message text = record {
  send_id = codes "a";
  recv_id = codes "b";
  group_id = [];
  client_msg_id = codes "c";
  server_msg_id = codes "s";
  sender_platform_id = 1;
  sender_nickname = [];
  sender_face_url = [];
  session_type = 1;
  msg_from = 100;
  content_type = 101;
  content = text;
  seq = 0;
  send_time = 5;
  create_time = 4;
  status = 2;
  is_read = true;
  options = [];
  offline_push_info = none;
  at_user_id_list = [];
  attached_info = [];
  ex = [];
  key_version = 7;
}

abbrev first_two : List MsgData
first_two = message (codes "x") ∷ message (codes "y") ∷ []

abbrev third : List MsgData
third = message (codes "z") ∷ []

first_stored : (batch_insert_chat2cache one_conversation conv (seq_is 99) first_two).error ≡ none
unfolding batch_insert_chat2cache insert_after insert_numbered
first_stored = refl

third_stored :
    (batch_insert_chat2cache one_conversation conv
      (batch_insert_chat2cache one_conversation conv (seq_is 99) first_two).cache
      third).error
    ≡ none
unfolding batch_insert_chat2cache insert_after insert_numbered
third_stored = refl

batches_follow_example :
    let r = batch_insert_chat2cache one_conversation conv (seq_is 99) first_two in
    let s = batch_insert_chat2cache one_conversation conv r.cache third in
    Consecutive r.seq (r.msgs ++ s.msgs)
batches_follow_example =
    batches_follow one_conversation conv (seq_is 99) first_two third (keeps conv) first_stored
      third_stored

abbrev no_documents : Documents
no_documents = λ d. none

two_accepted :
    (batch_insert_chat2db in_memory conv no_documents
      (map some (batch_insert_chat2cache one_conversation conv (seq_is 99) first_two).msgs)).1
    ≡ block done
unfolding batch_insert_chat2cache insert_after insert_numbered number batch_insert_chat2db
    batch_insert_block check_fields chat_model fill str_dec get_doc_id format_int info_of
    get_msg_index
two_accepted = refl

abbrev notice_of : RevokeModel → MsgDataModel → Str
notice_of r m = r.nickname

transferred-ReadBack_example :
    let r = batch_insert_chat2cache one_conversation conv (seq_is 99) first_two in
    ReadBack notice_of
      (codes "b")
      in_memory
      in_memory_view
      conv
      no_documents
      (batch_insert_chat2db in_memory conv no_documents (map some r.msgs)).0
      (r.seq + 1)
      r.msgs
transferred-ReadBack_example =
    transferred-ReadBack one_conversation conv notice_of (codes "b") in_memory in_memory_view
      in_memory_laws in_memory-CreatesOne (seq_is 99) no_documents (message (codes "x"))
      (message (codes "y") ∷ []) first_stored two_accepted

-- A notification that asks for no offline push.
abbrev notification : MsgData
notification = record (message (codes "n")) {
  options = (key_is_not_notification, false) ∷ (key_is_offline_push, false) ∷ [];
}

notifies : is_not_notification notification.options ≡ false
unfolding is_not_notification is str_dec lookup
notifies = refl

is_sent : is_send_msg notification.options ≡ true
unfolding is_send_msg is str_dec lookup
is_sent = refl

notification_clone_example :
    ((get_push_storage_msg_list (notification ∷ first_two)).storage
      ≡ clone_of notification ∷ (get_push_storage_msg_list first_two).storage)
    × (is (clone_of notification).options key_is_offline_push ≡ true)
    × (is (sorted_form notification).options key_is_offline_push ≡ false)
    × (is (sorted_form notification).options key_is_unread_count ≡ false)
notification_clone_example =
    notification_clone notification first_two key_is_offline_push notifies is_sent

abbrev services : Services
services = record { is_encryption = true; get_group_member_ids = λ group. none }

abbrev before : Transfer one_conversation services
before = record { cache = seq_nil; events = []; success_count = 0; failed_count = 0 }

abbrev sorted : Sorted
sorted = get_push_storage_msg_list (notification ∷ first_two)

abbrev head : Msg
head = named (sorted_form notification)

abbrev middle : Transfer one_conversation services
middle =
    handle_msg one_conversation services (codes "k") (get_chat_conversation_id_by_msg head)
      sorted.storage sorted.not_storage before

abbrev after : Transfer one_conversation services
after =
    handle_notification one_conversation services (codes "k")
      (get_notification_conversation_id_by_msg head) sorted.storage_notification
      sorted.not_storage_notification middle

one_round : run one_conversation services (codes "k") (notification ∷ first_two) before ≡ some after
unfolding run
one_round = refl

run-Adds_example :
    let a =
      accepted one_conversation services before.cache
        (get_chat_conversation_id_by_msg head)
        sorted.storage in
    let b =
      accepted one_conversation services middle.cache
        (get_notification_conversation_id_by_msg head)
        sorted.storage_notification in
    Adds [] after.events
      ((sorted.not_storage ++ a) ++ (sorted.not_storage_notification ++ b))
      (a ++ b)
run-Adds_example =
    run-Adds one_conversation services (codes "k") notification first_two before after one_round

-- A value of the queue is the text of its message, and the empty one cannot be decoded.
abbrev decode : Str → Option MsgData
decode [] = none
decode (c ∷ cs) = some (message (c ∷ cs))

abbrev by_length : Distributor
by_length = record { unmarshal = decode; get_hash_code = length; range_order = λ t. t }

abbrev queued : List (List ConsumerMessage)
queued =
    (record { key = codes "k"; value = codes "x" }
      ∷ record { key = codes "kk"; value = codes "y" }
      ∷ [])
    ∷ (record { key = codes "k"; value = [] } ∷ record { key = codes "k"; value = codes "z" } ∷ [])
    ∷ []

distribute_all-order_example :
    messages_of (codes "k") (distribute_all by_length queued (λ i. []) 1) ≡ (
      if 1 == channel_of by_length (codes "k")
      then decoded by_length (codes "k") (flatten queued)
      else [])
distribute_all-order_example =
    distribute_all-order by_length (codes "k") 1 queued (λ i. []) (λ t h. (h, λ key. refl))
