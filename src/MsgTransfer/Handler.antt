-- ===== src/MsgTransfer/Handler.antt =====
-- internal/msgtransfer/online_history_msg_handler.go, one round of `Run`: the messages of one key are
-- numbered, handed to the queues, and open the conversation if it is new. What a call sends to a
-- queue or to another service is an event, whatever it answers: the source ignores or logs it. The
-- last call of a round, MsgToModifyMQ, is left out: its messages share their memory with those that
-- have been numbered before.
pub mod Accounts
use k.Base.{
  ℕ, ◌+◌, ◌==◌, ◌||◌, Bool, true, false, if◌then◌else◌, Option, none, some, List, [], ◌∷◌, ◌++◌,
  map, length, Str,
}
use k.Constant.{single_chat_type, super_group_chat_type, notification_chat_type}
use k.MsgStore.Convert.{MsgData}
use k.MsgProcessor.Conversation.{
  Msg, get_chat_conversation_id_by_msg, get_notification_conversation_id_by_msg,
}
use k.MsgTransfer.Numbering.{MsgCache, Inserted, InsertError, batch_insert_chat2cache}
use k.MsgTransfer.Sorting.{Sorted, sorted_form, get_push_storage_msg_list}

pub data Event : Type 0 where
  -- the key, the conversation, and what is sent
  msg_to_push_mq : Str → Str → MsgData → Event
  -- with the last number before those of the messages
  msg_to_mongo_mq : Str → Str → List MsgData → ℕ → Event
  gen_encryption_key : Str → Event
  group_chat_first_create_conversation : Str → List Str → Event
  -- the receiver, the sender, the conversation and the session type
  single_chat_first_create_conversation : Str → Str → Str → ℕ → Event

-- The configuration, and the answer of the group service.
pub record Services : Type 0 where
  pub is_encryption : Bool
  pub get_group_member_ids : Str → Option (List Str)

unfoldable pub to_push_topic : Str → Str → List MsgData → List Event
to_push_topic key conv ms = map (msg_to_push_mq key conv) ms

-- MsgToMongoMQ sends nothing where there is no message.
unfoldable pub to_mongo : Str → Str → List MsgData → ℕ → List Event
to_mongo key conv [] last = []
to_mongo key conv (m ∷ ms) last = msg_to_mongo_mq key conv (m ∷ ms) last ∷ []

create_group_chat : Str → Option (List Str) → List Event
create_group_chat group none = []
create_group_chat group (some ids) = group_chat_first_create_conversation group ids ∷ []

-- The switch on the session type of the first message.
unfoldable pub first_create : Services → Str → MsgData → List Event
unfolding create_group_chat
first_create s conv m =
    (if s.is_encryption then gen_encryption_key conv ∷ [] else [])
    ++ (if m.session_type == super_group_chat_type
        then create_group_chat m.group_id (s.get_group_member_ids m.group_id)
        else if (m.session_type == single_chat_type) || (m.session_type == notification_chat_type)
        then single_chat_first_create_conversation m.recv_id m.send_id conv m.session_type ∷ []
        else [])

create_if : Bool → List Event → List Event
create_if is_new events = if is_new then events else []

-- What the naming functions read of a message.
abbrev pub named : MsgData → Msg
named m = record {
  session_type = m.session_type;
  send_id = m.send_id;
  recv_id = m.recv_id;
  group_id = m.group_id;
  options = m.options;
}

module _ (redis : MsgCache) (services : Services) where
  open redis use {Cache}

  pub record Transfer : Type 0 where
    pub cache : Cache
    pub events : List Event
    pub success_count : ℕ
    pub failed_count : ℕ

  send : List Event → Transfer → Transfer
  send new t = record t { events = t.events ++ new }

  -- The end of handleMsg, where the messages m and ms are stored.
  finish_msg : Str → Str → MsgData → ℕ → Inserted redis → Option InsertError → Transfer → Transfer
  unfolding send create_if
  finish_msg key conv m n r (some e) t = record t {
    cache = r.cache;
    failed_count = t.failed_count + n;
  }
  finish_msg key conv m n r none t =
      send
        (create_if r.is_new (first_create services conv m)
          ++ to_mongo key conv r.msgs r.seq
          ++ to_push_topic key conv r.msgs)
        (record t { cache = r.cache; success_count = t.success_count + n })

  store_msg : Str → Str → List MsgData → Transfer → Transfer
  unfolding finish_msg
  store_msg key conv [] t = t
  store_msg key conv (m ∷ ms) t =
      let r = batch_insert_chat2cache redis conv t.cache (m ∷ ms) in
      finish_msg key conv m (length (m ∷ ms)) r r.error t

  unfoldable pub handle_msg : Str → Str → List MsgData → List MsgData → Transfer → Transfer
  unfolding send store_msg
  handle_msg key conv storage not_storage t =
      store_msg key conv storage (send (to_push_topic key conv not_storage) t)

  finish_notification : Str → Str → Inserted redis → Option InsertError → Transfer → Transfer
  unfolding send
  finish_notification key conv r (some e) t = record t { cache = r.cache }
  finish_notification key conv r none t =
      send (to_mongo key conv r.msgs r.seq ++ to_push_topic key conv r.msgs)
        (record t { cache = r.cache })

  store_notification : Str → Str → List MsgData → Transfer → Transfer
  unfolding finish_notification
  store_notification key conv [] t = t
  store_notification key conv (m ∷ ms) t =
      let r = batch_insert_chat2cache redis conv t.cache (m ∷ ms) in
      finish_notification key conv r r.error t

  unfoldable pub handle_notification : Str → Str → List MsgData → List MsgData → Transfer → Transfer
  unfolding send store_notification
  handle_notification key conv storage not_storage t =
      store_notification key conv storage (send (to_push_topic key conv not_storage) t)

  -- A round without messages panics; the distribution makes none.
  unfoldable pub run : Str → List MsgData → Transfer → Option Transfer
  unfolding handle_msg handle_notification
  run key [] t = none
  run key (m ∷ ms) t =
      let sorted = get_push_storage_msg_list (m ∷ ms) in
      let first = named (sorted_form m) in
      some (
        handle_notification key (get_notification_conversation_id_by_msg first)
          sorted.storage_notification sorted.not_storage_notification
          (handle_msg key (get_chat_conversation_id_by_msg first) sorted.storage sorted.not_storage
            t))
