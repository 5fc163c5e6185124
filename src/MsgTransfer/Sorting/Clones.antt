-- ===== src/MsgTransfer/Sorting/Clones.antt =====
-- What a notification and its clone ask for.
use k.Base.{
  ◌∙◌, ◌≡◌, inl, inr, Bool, Bool-cases, true, false, List, ◌∷◌, Str, str_dec, lookup, store, arith,
}
use k.Constant.{key_is_offline_push, key_is_unread_count}
use k.MsgStore.Convert.{MsgData}
use k.MsgProcessor.Options.{
  Options, with_options, new_msg_options, is, setting, is_not_notification,
}
use k.MsgProcessor.Options.Laws.{is-store}
use k.MsgTransfer.Sorting.{
  is_offline_push, is_unread_count, is_send_msg, quiet_options, clone_options, muted_options,
  clone_of, sorted_form, add_clone, add_sorted, add_modify, get_push_storage_msg_list,
}

-- Two options that are set and read.
push-store :
    (o : Options) (b : Bool) → is (store str_dec key_is_offline_push b o) key_is_offline_push ≡ b
unfolding str_dec
push-store o b = is-store o key_is_offline_push key_is_offline_push b

unread-store :
    (o : Options) (b : Bool) → is (store str_dec key_is_unread_count b o) key_is_unread_count ≡ b
unfolding str_dec
unread-store o b = is-store o key_is_unread_count key_is_unread_count b

push-store_unread :
    (o : Options) (b : Bool)
    → is (store str_dec key_is_unread_count b o) key_is_offline_push ≡ is o key_is_offline_push
unfolding str_dec
push-store_unread o b = is-store o key_is_unread_count key_is_offline_push b

quiet_options-push : (o : Options) → is (quiet_options o) key_is_offline_push ≡ false
unfolding quiet_options with_options setting is_offline_push
quiet_options-push o = elim (Bool-cases (is o key_is_offline_push)) [
  | inl h ↦ rw (h, quiet_options) (push-store o false)
  | inr h ↦ rw (h, quiet_options) h
]

muted_options-quiet :
    (o : Options)
    → (is (muted_options o) key_is_offline_push ≡ false)
      × (is (muted_options o) key_is_unread_count ≡ false)
unfolding muted_options with_options setting is_unread_count
muted_options-quiet o = elim (Bool-cases (is (quiet_options o) key_is_unread_count)) [
  | inl h ↦
      rw (h, muted_options)
        (
          push-store_unread (quiet_options o) false ∙ quiet_options-push o,
          unread-store (quiet_options o) false,
        )
  | inr h ↦ rw (h, muted_options) (quiet_options-push o, h)
]

clone_options-all : (o : Options) (key : Str) → is (clone_options o) key ≡ true
unfolding clone_options with_options new_msg_options setting is lookup store
clone_options-all o key = ground arith

-- A notification that is also to be sent as a message is stored as a clone that reads every option
-- as set, those too that the notification denied, such as the offline push; the notification itself
-- goes on without offline push and unread count.
pub notification_clone :
    (m : MsgData) (ms : List MsgData) (key : Str)
    → is_not_notification m.options ≡ false
    → is_send_msg m.options ≡ true
    → ((get_push_storage_msg_list (m ∷ ms)).storage
        ≡ clone_of m ∷ (get_push_storage_msg_list ms).storage)
      × (is (clone_of m).options key ≡ true)
      × (is (sorted_form m).options key_is_offline_push ≡ false)
      × (is (sorted_form m).options key_is_unread_count ≡ false)
unfolding get_push_storage_msg_list clone_of sorted_form add_clone add_sorted add_modify
notification_clone m ms key note send =
    let (push, unread) = muted_options-quiet m.options in
    (
      ground arith,
      clone_options-all m.options key,
      rw (note, send, sorted_form) push,
      rw (note, send, sorted_form) unread,
    )
