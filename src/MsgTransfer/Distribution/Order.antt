-- ===== src/MsgTransfer/Distribution/Order.antt =====
-- The order of the messages of a key, through any batches.
use mathlib.Core.List.{append_assoc, append-nil}
use k.Base.{
  ◌&&◌, ◌≡◌, ◌≢◌, ◌∙◌, refl, ap, sym, inl, inr, if_pos, if_neg, ℕ, ◌==◌, Bool, Bool-cases, true,
  false, Option, none, some, List, [], ◌∷◌, ◌++◌, Str, str_dec, str_eq, str_eq_refl, lookup, store,
  lookup-store, store-Distinct, Distinct, if◌then◌else◌, arith,
}
use k.MsgStore.Convert.{MsgData}
use k.MsgTransfer.Distribution.{
  ConsumerMessage, MsgChannelValue, Aggregation, Distributor, append_msg, Channels, put,
  aggregate_one, aggregate, channel_of, put_groups, distribute, distribute_all,
}

-- The messages of a key in a channel.
abbrev pub messages_of : Str → List MsgChannelValue → List MsgData
messages_of key [] = []
messages_of key (v ∷ vs) =
    let rest = messages_of key vs in
    if str_eq v.unique_key key then v.ctx_msg_list ++ rest else rest

-- The messages of a key in the queue, as far as they can be decoded.
abbrev pub with_decoded : Bool → Option MsgData → List MsgData → List MsgData
with_decoded false o rest = rest
with_decoded true none rest = rest
with_decoded true (some m) rest = m ∷ rest

abbrev pub decoded : Distributor → Str → List ConsumerMessage → List MsgData
decoded d key [] = []
decoded d key (c ∷ cs) = with_decoded (str_eq c.key key) (d.unmarshal c.value) (decoded d key cs)

abbrev pub flatten : List (List ConsumerMessage) → List ConsumerMessage
flatten [] = []
flatten (b ∷ bs) = b ++ flatten bs

-- What is assumed of `range` over a map: each entry is visited once.
abbrev pub VisitsAll : Distributor → Type 0
VisitsAll d =
    (t : Aggregation)
    → Distinct str_dec t
    → Distinct str_dec (d.range_order t)
      × ((key : Str) → lookup str_dec key (d.range_order t) ≡ lookup str_dec key t)

abbrev group_of : Option (List MsgData) → List MsgData
group_of none = []
group_of (some ms) = ms

lookup-store_same :
    (k : Str) (v : List MsgData) (t : Aggregation) → lookup str_dec k (store str_dec k v t) ≡ some v
lookup-store_same k v t = lookup-store str_dec k k v t ∙ if_pos (str_dec k k) refl _ _

lookup-store_ne :
    (k key : Str) (v : List MsgData) (t : Aggregation)
    → k ≢ key
    → lookup str_dec key (store str_dec k v t) ≡ lookup str_dec key t
lookup-store_ne k key v t n = lookup-store str_dec k key v t ∙ if_neg (str_dec k key) n _ _

str_ne : (a b : Str) → a ≢ b → str_eq a b ≡ false
str_ne a b n = ground arith

append_msg-same :
    (k : Str) (m : MsgData) (o : Option (List MsgData)) (t : Aggregation)
    → group_of (lookup str_dec k (append_msg k m o t)) ≡ group_of o ++ m ∷ []
unfolding append_msg
append_msg-same k m none t = ap group_of (lookup-store_same k (m ∷ []) t)
append_msg-same k m (some old) t = ap group_of (lookup-store_same k (old ++ m ∷ []) t)

append_msg-ne :
    (k key : Str) (m : MsgData) (o : Option (List MsgData)) (t : Aggregation)
    → k ≢ key
    → lookup str_dec key (append_msg k m o t) ≡ lookup str_dec key t
unfolding append_msg
append_msg-ne k key m none t n = lookup-store_ne k key (m ∷ []) t n
append_msg-ne k key m (some old) t n = lookup-store_ne k key (old ++ m ∷ []) t n

aggregate_one-group :
    (d : Distributor) (k key : Str) (o : Option MsgData) (t : Aggregation)
    → group_of (lookup str_dec key (aggregate_one d k o t))
      ≡ group_of (lookup str_dec key t) ++ with_decoded (str_eq k key) o []
unfolding aggregate_one
aggregate_one-group d k key none t = elim (Bool-cases (str_eq k key)) [
  | inl h ↦ rw h (sym (append-nil _))
  | inr h ↦ rw h (sym (append-nil _))
]
aggregate_one-group d k key (some m) t = elim (str_dec k key) [
  | yes p ↦ rw (← p, str_eq_refl k) (append_msg-same k m (lookup str_dec k t) t)
  | no n ↦
      rw (str_ne k key n)
        (ap group_of (append_msg-ne k key m (lookup str_dec k t) t n) ∙ sym (append-nil _))
]

append_msg-Distinct :
    (k : Str) (m : MsgData) (o : Option (List MsgData)) (t : Aggregation)
    → Distinct str_dec t
    → Distinct str_dec (append_msg k m o t)
unfolding append_msg
append_msg-Distinct k m none t h = store-Distinct str_dec k (m ∷ []) t h
append_msg-Distinct k m (some old) t h = store-Distinct str_dec k (old ++ m ∷ []) t h

aggregate_one-Distinct :
    (d : Distributor) (k : Str) (o : Option MsgData) (t : Aggregation)
    → Distinct str_dec t
    → Distinct str_dec (aggregate_one d k o t)
unfolding aggregate_one
aggregate_one-Distinct d k none t h = h
aggregate_one-Distinct d k (some m) t h = append_msg-Distinct k m (lookup str_dec k t) t h

aggregate-Distinct :
    (d : Distributor) (cs : List ConsumerMessage) (t : Aggregation)
    → Distinct str_dec t
    → Distinct str_dec (aggregate d cs t)
unfolding aggregate
aggregate-Distinct d [] t h = h
aggregate-Distinct d (c ∷ cs) t h =
    aggregate-Distinct d cs _ (aggregate_one-Distinct d c.key (d.unmarshal c.value) t h)

decoded_first :
    (b : Bool) (o : Option MsgData) (rest : List MsgData)
    → with_decoded b o [] ++ rest ≡ with_decoded b o rest
decoded_first false o rest = refl
decoded_first true none rest = refl
decoded_first true (some m) rest = refl

-- A group holds the messages of its key in the order of the batch.
aggregate-group :
    (d : Distributor) (key : Str) (cs : List ConsumerMessage) (t : Aggregation)
    → group_of (lookup str_dec key (aggregate d cs t))
      ≡ group_of (lookup str_dec key t) ++ decoded d key cs
unfolding aggregate
aggregate-group d key [] t = sym (append-nil _)
aggregate-group d key (c ∷ cs) t =
    aggregate-group d key cs (aggregate_one d c.key (d.unmarshal c.value) t)
    ∙ ap (λ ms. ms ++ decoded d key cs) (aggregate_one-group d c.key key (d.unmarshal c.value) t)
    ∙ append_assoc (group_of (lookup str_dec key t))
        (with_decoded (str_eq c.key key) (d.unmarshal c.value) []) (decoded d key cs)
    ∙ ap (λ ms. group_of (lookup str_dec key t) ++ ms)
        (decoded_first (str_eq c.key key) (d.unmarshal c.value) (decoded d key cs))

messages_of-append :
    (key : Str) (vs : List MsgChannelValue) (v : MsgChannelValue)
    → messages_of key (vs ++ v ∷ [])
      ≡ messages_of key vs ++ (if str_eq v.unique_key key then v.ctx_msg_list else [])
messages_of-append key [] v = elim (Bool-cases (str_eq v.unique_key key)) [
  | inl h ↦ rw h (append-nil _)
  | inr h ↦ rw h refl
]
messages_of-append key (w ∷ vs) v = elim (Bool-cases (str_eq w.unique_key key)) [
  | inl h ↦ rw h (
      ap (λ ms. w.ctx_msg_list ++ ms) (messages_of-append key vs v)
      ∙ sym (
          append_assoc w.ctx_msg_list (messages_of key vs)
            (if str_eq v.unique_key key then v.ctx_msg_list else [])))
  | inr h ↦ rw h (messages_of-append key vs v)
]

put-messages :
    (key : Str) (channel i : ℕ) (v : MsgChannelValue) (ch : Channels)
    → messages_of key (put channel v ch i)
      ≡ messages_of key (ch i)
        ++ (if (i == channel) && str_eq v.unique_key key then v.ctx_msg_list else [])
unfolding put
put-messages key channel i v ch = elim (Bool-cases (i == channel)) [
  | inl h ↦ rw h (messages_of-append key (ch i) v)
  | inr h ↦ rw h (sym (append-nil _))
]

lookup-here :
    (k : Str) (ms : List MsgData) (t : Aggregation) → lookup str_dec k ((k, ms) ∷ t) ≡ some ms
unfolding lookup
lookup-here k ms t = if_pos (str_dec k k) refl (some ms) (lookup str_dec k t)

lookup-there :
    (k key : Str) (ms : List MsgData) (t : Aggregation)
    → k ≢ key
    → lookup str_dec key ((k, ms) ∷ t) ≡ lookup str_dec key t
unfolding lookup
lookup-there k key ms t n = if_neg (str_dec k key) n (some ms) (lookup str_dec key t)

neither : (b : Bool) (ms old : List MsgData) → old ++ (if b && false then ms else []) ≡ old
neither true ms old = append-nil old
neither false ms old = append-nil old

first_group :
    (d : Distributor) (key k : Str) (i : ℕ) (ms old : List MsgData) (t : Aggregation)
    → lookup str_dec k t ≡ none
    → (old ++ (if (i == channel_of d k) && str_eq k key then ms else []))
        ++ (if i == channel_of d key then group_of (lookup str_dec key t) else [])
      ≡ old ++ (if i == channel_of d key then group_of (lookup str_dec key ((k, ms) ∷ t)) else [])
first_group d key k i ms old t new = elim (str_dec k key) [
  | yes p ↦ elim (Bool-cases (i == channel_of d k)) [
    | inl b ↦ rw (← p, str_eq_refl k, new, lookup-here k ms t, b) (append-nil (old ++ ms))
    | inr b ↦ rw (← p, str_eq_refl k, new, lookup-here k ms t, b) (append-nil (old ++ []))
  ]
  | no n ↦
      rw (str_ne k key n, lookup-there k key ms t n)
        (ap (λ x. x ++ (if i == channel_of d key then group_of (lookup str_dec key t) else []))
          (neither (i == channel_of d k) ms old))
]

-- The groups of a map put a key's messages in the channel of the key, and in no other one.
put_groups-messages :
    (d : Distributor) (key : Str) (i : ℕ) (t : Aggregation) (ch : Channels)
    → Distinct str_dec t
    → messages_of key (put_groups d t ch i)
      ≡ messages_of key (ch i)
        ++ (if i == channel_of d key then group_of (lookup str_dec key t) else [])
unfolding put_groups lookup
put_groups-messages d key i [] ch h = elim (Bool-cases (i == channel_of d key)) [
  | inl e ↦ rw e (sym (append-nil _))
  | inr e ↦ rw e (sym (append-nil _))
]
put_groups-messages d key i ((k, ms) ∷ t) ch (new, h) =
    let v : MsgChannelValue = record { unique_key = k; ctx_msg_list = ms } in
    put_groups-messages d key i t (put (channel_of d k) v ch) h
    ∙ ap (λ x. x ++ (if i == channel_of d key then group_of (lookup str_dec key t) else []))
        (put-messages key (channel_of d k) i v ch)
    ∙ first_group d key k i ms (messages_of key (ch i)) t new

-- A batch puts the messages of a key, in their order, behind those that are in its channel.
distribute-messages :
    (d : Distributor) (key : Str) (i : ℕ) (cs : List ConsumerMessage) (ch : Channels)
    → VisitsAll d
    → messages_of key (distribute d cs ch i)
      ≡ messages_of key (ch i) ++ (if i == channel_of d key then decoded d key cs else [])
unfolding distribute lookup
distribute-messages d key i cs ch visits =
    let (distinct, same) = visits (aggregate d cs []) (aggregate-Distinct d cs [] tt) in
    put_groups-messages d key i (d.range_order (aggregate d cs [])) ch distinct
    ∙ ap (λ x. messages_of key (ch i) ++ (if i == channel_of d key then x else []))
        (ap group_of (same key) ∙ aggregate-group d key cs [])

with_decoded-append :
    (b : Bool) (o : Option MsgData) (xs ys : List MsgData)
    → with_decoded b o (xs ++ ys) ≡ with_decoded b o xs ++ ys
with_decoded-append false o xs ys = refl
with_decoded-append true none xs ys = refl
with_decoded-append true (some m) xs ys = refl

decoded-append :
    (d : Distributor) (key : Str) (xs ys : List ConsumerMessage)
    → decoded d key (xs ++ ys) ≡ decoded d key xs ++ decoded d key ys
decoded-append d key [] ys = refl
decoded-append d key (x ∷ xs) ys =
    ap (with_decoded (str_eq x.key key) (d.unmarshal x.value)) (decoded-append d key xs ys)
    ∙ with_decoded-append (str_eq x.key key) (d.unmarshal x.value) (decoded d key xs)
        (decoded d key ys)

both_batches :
    (c : Bool) (old xs ys : List MsgData)
    → (old ++ (if c then xs else [])) ++ (if c then ys else [])
      ≡ old ++ (if c then xs ++ ys else [])
both_batches true old xs ys = append_assoc old xs ys
both_batches false old xs ys = append-nil (old ++ [])

-- Through any batches, the channel of a key gets all messages of the key that can be decoded, each
-- once and in the order of the queue, and no other channel gets any of them, in whichever order the
-- groups of a batch are visited, if each is visited once.
pub distribute_all-order :
    (d : Distributor) (key : Str) (i : ℕ) (bs : List (List ConsumerMessage)) (ch : Channels)
    → VisitsAll d
    → messages_of key (distribute_all d bs ch i)
      ≡ messages_of key (ch i) ++ (if i == channel_of d key then decoded d key (flatten bs) else [])
unfolding distribute_all
distribute_all-order d key i [] ch visits = elim (Bool-cases (i == channel_of d key)) [
  | inl e ↦ rw e (sym (append-nil _))
  | inr e ↦ rw e (sym (append-nil _))
]
distribute_all-order d key i (b ∷ bs) ch visits =
    distribute_all-order d key i bs (distribute d b ch) visits
    ∙ ap (λ x. x ++ (if i == channel_of d key then decoded d key (flatten bs) else []))
        (distribute-messages d key i b ch visits)
    ∙ both_batches (i == channel_of d key) (messages_of key (ch i)) (decoded d key b)
        (decoded d key (flatten bs))
    ∙ ap (λ x. messages_of key (ch i) ++ (if i == channel_of d key then x else []))
        (sym (decoded-append d key b (flatten bs)))
