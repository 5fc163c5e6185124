-- ===== src/MsgTransfer/Handler/Accounts.antt =====
-- What a round of the transfer hands on.
use mathlib.Core.List.{append_assoc, append-nil}
use k.Base.{
  subst, ◌≡◌, ◌∙◌, refl, ap, sym, ℕ, Bool, Option, none, some, some_eq, List, [], ◌∷◌, ◌++◌, length,
  Str, arith,
}
use k.MsgStore.Convert.{MsgData}
use k.MsgProcessor.Conversation.{
  get_chat_conversation_id_by_msg, get_notification_conversation_id_by_msg,
}
use k.MsgTransfer.Numbering.{MsgCache, Inserted, InsertError, batch_insert_chat2cache}
use k.MsgTransfer.Sorting.{sorted_form, get_push_storage_msg_list}
use k.MsgTransfer.Handler.{
  Event, msg_to_push_mq, msg_to_mongo_mq, gen_encryption_key, group_chat_first_create_conversation,
  single_chat_first_create_conversation, Services, to_push_topic, to_mongo, first_create, named,
  Transfer, handle_msg, handle_notification, run, send, finish_msg, store_msg, finish_notification,
  store_notification, create_if, create_group_chat,
}

-- The messages that the events push, and those that they hand to the database.
abbrev pub pushed : List Event → List MsgData
pushed [] = []
pushed (msg_to_push_mq key conv m ∷ es) = m ∷ pushed es
pushed (msg_to_mongo_mq key conv ms last ∷ es) = pushed es
pushed (gen_encryption_key conv ∷ es) = pushed es
pushed (group_chat_first_create_conversation g ids ∷ es) = pushed es
pushed (single_chat_first_create_conversation r s conv t ∷ es) = pushed es

abbrev pub handed : List Event → List MsgData
handed [] = []
handed (msg_to_push_mq key conv m ∷ es) = handed es
handed (msg_to_mongo_mq key conv ms last ∷ es) = ms ++ handed es
handed (gen_encryption_key conv ∷ es) = handed es
handed (group_chat_first_create_conversation g ids ∷ es) = handed es
handed (single_chat_first_create_conversation r s conv t ∷ es) = handed es

pushed-append : (xs ys : List Event) → pushed (xs ++ ys) ≡ pushed xs ++ pushed ys
pushed-append [] ys = refl
pushed-append (msg_to_push_mq key conv m ∷ xs) ys = ap (λ ms. m ∷ ms) (pushed-append xs ys)
pushed-append (msg_to_mongo_mq key conv ms last ∷ xs) ys = pushed-append xs ys
pushed-append (gen_encryption_key conv ∷ xs) ys = pushed-append xs ys
pushed-append (group_chat_first_create_conversation g ids ∷ xs) ys = pushed-append xs ys
pushed-append (single_chat_first_create_conversation r s conv t ∷ xs) ys = pushed-append xs ys

handed-append : (xs ys : List Event) → handed (xs ++ ys) ≡ handed xs ++ handed ys
handed-append [] ys = refl
handed-append (msg_to_push_mq key conv m ∷ xs) ys = handed-append xs ys
handed-append (msg_to_mongo_mq key conv ms last ∷ xs) ys =
    ap (λ r. ms ++ r) (handed-append xs ys) ∙ sym (append_assoc ms (handed xs) (handed ys))
handed-append (gen_encryption_key conv ∷ xs) ys = handed-append xs ys
handed-append (group_chat_first_create_conversation g ids ∷ xs) ys = handed-append xs ys
handed-append (single_chat_first_create_conversation r s conv t ∷ xs) ys = handed-append xs ys

pushed-to_push_topic :
    (key conv : Str) (ms : List MsgData) → pushed (to_push_topic key conv ms) ≡ ms
unfolding to_push_topic
pushed-to_push_topic key conv [] = refl
pushed-to_push_topic key conv (m ∷ ms) = ap (λ r. m ∷ r) (pushed-to_push_topic key conv ms)

handed-to_push_topic :
    (key conv : Str) (ms : List MsgData) → handed (to_push_topic key conv ms) ≡ []
unfolding to_push_topic
handed-to_push_topic key conv [] = refl
handed-to_push_topic key conv (m ∷ ms) = handed-to_push_topic key conv ms

pushed-to_mongo :
    (key conv : Str) (ms : List MsgData) (n : ℕ) → pushed (to_mongo key conv ms n) ≡ []
unfolding to_mongo
pushed-to_mongo key conv [] n = refl
pushed-to_mongo key conv (m ∷ ms) n = refl

handed-to_mongo :
    (key conv : Str) (ms : List MsgData) (n : ℕ) → handed (to_mongo key conv ms n) ≡ ms
unfolding to_mongo
handed-to_mongo key conv [] n = refl
handed-to_mongo key conv (m ∷ ms) n = append-nil (m ∷ ms)

create_if-silent :
    (is_new : Bool) (s : Services) (conv : Str) (m : MsgData)
    → (pushed (create_if is_new (first_create s conv m)) ≡ [])
      × (handed (create_if is_new (first_create s conv m)) ≡ [])
unfolding create_if first_create create_group_chat
create_if-silent is_new s conv m = (ground arith, ground arith)

-- From some events to others, p more are pushed and h more are handed to the database.
abbrev pub Adds : List Event → List Event → List MsgData → List MsgData → Type 0
Adds es es' p h = (pushed es' ≡ pushed es ++ p) × (handed es' ≡ handed es ++ h)

append-Adds : (es new : List Event) → Adds es (es ++ new) (pushed new) (handed new)
append-Adds es new = (pushed-append es new, handed-append es new)

then-Adds :
    (es es' es'' : List Event) (p q h k : List MsgData)
    → Adds es es' p h
    → Adds es' es'' q k
    → Adds es es'' (p ++ q) (h ++ k)
then-Adds es es' es'' p q h k (a, b) (c, d) = (
  c ∙ ap (λ x. x ++ q) a ∙ append_assoc (pushed es) p q,
  d ∙ ap (λ x. x ++ k) b ∙ append_assoc (handed es) h k,
)

same-Adds : (es : List Event) → Adds es es [] []
same-Adds es = (sym (append-nil _), sym (append-nil _))

push-Adds :
    (es : List Event) (key conv : Str) (ms : List MsgData)
    → Adds es (es ++ to_push_topic key conv ms) ms []
push-Adds es key conv ms =
    subst (λ p. Adds es (es ++ to_push_topic key conv ms) p []) (pushed-to_push_topic key conv ms)
      (subst (λ h. Adds es (es ++ to_push_topic key conv ms) (pushed (to_push_topic key conv ms)) h)
        (handed-to_push_topic key conv ms) (append-Adds es (to_push_topic key conv ms)))

-- The events of a stored batch: none, or those that open the conversation, the batch for the
-- database and the pushes.
stored-Adds :
    (es first : List Event) (key conv : Str) (ms : List MsgData) (last : ℕ)
    → pushed first ≡ []
    → handed first ≡ []
    → Adds es (es ++ (first ++ to_mongo key conv ms last ++ to_push_topic key conv ms)) ms ms
stored-Adds es first key conv ms last f g =
    let new = first ++ to_mongo key conv ms last ++ to_push_topic key conv ms in
    let p : pushed new ≡ ms =
      pushed-append (first ++ to_mongo key conv ms last) (to_push_topic key conv ms)
      ∙ ap (λ x. x ++ pushed (to_push_topic key conv ms))
          (pushed-append first (to_mongo key conv ms last))
      ∙ rw (f, pushed-to_mongo key conv ms last) (pushed-to_push_topic key conv ms) in
    let h : handed new ≡ ms =
      handed-append (first ++ to_mongo key conv ms last) (to_push_topic key conv ms)
      ∙ ap (λ x. x ++ handed (to_push_topic key conv ms))
          (handed-append first (to_mongo key conv ms last))
      ∙ rw (g, handed-to_mongo key conv ms last, handed-to_push_topic key conv ms)
          (append-nil ms) in
    (
      pushed-append es new ∙ ap (λ x. pushed es ++ x) p,
      handed-append es new ∙ ap (λ x. handed es ++ x) h,
    )

-- What a numbering without an error gives back.
abbrev of_inserted {ℓ} : {E : Type 0} {A : Type ℓ} → Option E → List A → List A
of_inserted none ms = ms
of_inserted (some e) ms = []

module _ (redis : MsgCache) (services : Services) where
  -- The messages of a batch with their numbers, or none where it could not be numbered.
  abbrev pub accepted : redis.Cache → Str → List MsgData → List MsgData
  accepted c conv [] = []
  accepted c conv (m ∷ ms) =
      let r = batch_insert_chat2cache redis conv c (m ∷ ms) in of_inserted r.error r.msgs

  finish_msg-Adds :
      (key conv : Str) (m : MsgData) (n : ℕ) (r : Inserted redis) (e : Option InsertError)
      (t : Transfer redis services)
      → Adds t.events
          (finish_msg redis services key conv m n r e t).events
          (of_inserted e r.msgs)
          (of_inserted e r.msgs)
  unfolding finish_msg send
  finish_msg-Adds key conv m n r (some e) t = same-Adds t.events
  finish_msg-Adds key conv m n r none t =
      let (f, g) = create_if-silent r.is_new services conv m in
      stored-Adds t.events (create_if r.is_new (first_create services conv m)) key conv r.msgs r.seq
        f g

  store_msg-Adds :
      (key conv : Str) (storage : List MsgData) (t : Transfer redis services)
      → Adds t.events
          (store_msg redis services key conv storage t).events
          (accepted t.cache conv storage)
          (accepted t.cache conv storage)
  unfolding store_msg
  store_msg-Adds key conv [] t = same-Adds t.events
  store_msg-Adds key conv (m ∷ ms) t =
      let r = batch_insert_chat2cache redis conv t.cache (m ∷ ms) in
      finish_msg-Adds key conv m (length (m ∷ ms)) r r.error t

  handle_msg-Adds :
      (key conv : Str) (storage not_storage : List MsgData) (t : Transfer redis services)
      → Adds t.events
          (handle_msg redis services key conv storage not_storage t).events
          (not_storage ++ accepted t.cache conv storage)
          (accepted t.cache conv storage)
  unfolding handle_msg send
  handle_msg-Adds key conv storage not_storage t =
      let pushes = send redis services (to_push_topic key conv not_storage) t in
      let a = accepted t.cache conv storage in
      then-Adds t.events pushes.events (store_msg redis services key conv storage pushes).events
        not_storage a [] a (push-Adds t.events key conv not_storage)
        (store_msg-Adds key conv storage pushes)

  finish_notification-Adds :
      (key conv : Str) (r : Inserted redis) (e : Option InsertError) (t : Transfer redis services)
      → Adds t.events
          (finish_notification redis services key conv r e t).events
          (of_inserted e r.msgs)
          (of_inserted e r.msgs)
  unfolding finish_notification send
  finish_notification-Adds key conv r (some e) t = same-Adds t.events
  finish_notification-Adds key conv r none t =
      stored-Adds t.events [] key conv r.msgs r.seq refl refl

  store_notification-Adds :
      (key conv : Str) (storage : List MsgData) (t : Transfer redis services)
      → Adds t.events
          (store_notification redis services key conv storage t).events
          (accepted t.cache conv storage)
          (accepted t.cache conv storage)
  unfolding store_notification
  store_notification-Adds key conv [] t = same-Adds t.events
  store_notification-Adds key conv (m ∷ ms) t =
      let r = batch_insert_chat2cache redis conv t.cache (m ∷ ms) in
      finish_notification-Adds key conv r r.error t

  handle_notification-Adds :
      (key conv : Str) (storage not_storage : List MsgData) (t : Transfer redis services)
      → Adds t.events
          (handle_notification redis services key conv storage not_storage t).events
          (not_storage ++ accepted t.cache conv storage)
          (accepted t.cache conv storage)
  unfolding handle_notification send
  handle_notification-Adds key conv storage not_storage t =
      let pushes = send redis services (to_push_topic key conv not_storage) t in
      let a = accepted t.cache conv storage in
      then-Adds t.events pushes.events
        (store_notification redis services key conv storage pushes).events not_storage a [] a
        (push-Adds t.events key conv not_storage) (store_notification-Adds key conv storage pushes)

  -- A round pushes what need not be stored in any case, and what is to be stored just where it hands
  -- it to the database, with the numbers that it got: first the messages, then the notifications,
  -- each batch if the cache could number it.
  pub run-Adds :
      (key : Str) (m : MsgData) (ms : List MsgData) (t t' : Transfer redis services)
      → run redis services key (m ∷ ms) t ≡ some t'
      → let sorted = get_push_storage_msg_list (m ∷ ms) in
        let first = named (sorted_form m) in
        let chat = get_chat_conversation_id_by_msg first in
        let middle = handle_msg redis services key chat sorted.storage sorted.not_storage t in
        let a = accepted t.cache chat sorted.storage in
        let b =
          accepted middle.cache
            (get_notification_conversation_id_by_msg first)
            sorted.storage_notification in
        Adds t.events t'.events
          ((sorted.not_storage ++ a) ++ (sorted.not_storage_notification ++ b))
          (a ++ b)
  unfolding run
  run-Adds key m ms t t' h =
      let sorted = get_push_storage_msg_list (m ∷ ms) in
      let first = named (sorted_form m) in
      let chat = get_chat_conversation_id_by_msg first in
      let note = get_notification_conversation_id_by_msg first in
      let middle = handle_msg redis services key chat sorted.storage sorted.not_storage t in
      let a = accepted t.cache chat sorted.storage in
      let b = accepted middle.cache note sorted.storage_notification in
      let end =
        handle_notification redis services key note sorted.storage_notification
          sorted.not_storage_notification middle in
      let both =
        then-Adds t.events middle.events end.events (sorted.not_storage ++ a)
          (sorted.not_storage_notification ++ b) a b
          (handle_msg-Adds key chat sorted.storage sorted.not_storage t)
          (handle_notification-Adds key note sorted.storage_notification
            sorted.not_storage_notification middle) in
      subst
        (λ (u : Transfer redis services).
          Adds t.events u.events
            ((sorted.not_storage ++ a) ++ (sorted.not_storage_notification ++ b)) (a ++ b))
        (some_eq h) both
