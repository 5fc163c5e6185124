-- ===== src/MsgTransfer/Distribution.antt =====
-- internal/msgtransfer/online_history_msg_handler.go, `MessagesDistributionHandle`: a batch of the
-- queue is grouped by key, and each group goes to the channel of its key. The decoding of a message
-- and the hash are parameters, and so is the order in which Go visits the entries of a map. A channel
-- holds what was put in it, without a bound.
pub mod Order
use k.Base.{
  ℕ, ◌%◌, ◌==◌, Bool, true, false, Option, none, some, List, [], ◌∷◌, ◌++◌, Str, str_dec, lookup,
  store, if◌then◌else◌,
}
use k.MsgStore.Convert.{MsgData}

abbrev pub channel_num : ℕ
channel_num = 100

pub record ConsumerMessage : Type 0 where
  pub key : Str
  pub value : Str

-- What lies in a channel: the key of a group and its messages.
pub record MsgChannelValue : Type 0 where
  pub unique_key : Str
  pub ctx_msg_list : List MsgData

abbrev pub Aggregation : Type 0
Aggregation = List (Str × List MsgData)

pub record Distributor : Type 0 where
  pub unmarshal : Str → Option MsgData
  pub get_hash_code : Str → ℕ
  -- the entries of a map as `range` visits them
  pub range_order : Aggregation → Aggregation

unfoldable pub append_msg : Str → MsgData → Option (List MsgData) → Aggregation → Aggregation
append_msg key m none t = store str_dec key (m ∷ []) t
append_msg key m (some old) t = store str_dec key (old ++ m ∷ []) t

abbrev pub Channels : Type 0
Channels = ℕ → List MsgChannelValue

-- `och.chArrays[channelID] <- …`
unfoldable pub put : ℕ → MsgChannelValue → Channels → Channels
put channel v ch i = if i == channel then ch i ++ v ∷ [] else ch i

module _ (d : Distributor) where
  aggregate_one : Str → Option MsgData → Aggregation → Aggregation
  unfolding append_msg
  aggregate_one key none t = t
  aggregate_one key (some m) t = append_msg key m (lookup str_dec key t) t

  -- The loop over the batch; a message that cannot be decoded is passed over.
  unfoldable pub aggregate : List ConsumerMessage → Aggregation → Aggregation
  unfolding aggregate_one
  aggregate [] t = t
  aggregate (c ∷ cs) t = aggregate cs (aggregate_one c.key (d.unmarshal c.value) t)

  unfoldable pub channel_of : Str → ℕ
  channel_of key = d.get_hash_code key % channel_num

  -- The loop over the groups.
  unfoldable pub put_groups : Aggregation → Channels → Channels
  unfolding put channel_of
  put_groups [] ch = ch
  put_groups ((key, ms) ∷ t) ch =
      put_groups t (put (channel_of key) (record { unique_key = key; ctx_msg_list = ms }) ch)

  -- One batch.
  unfoldable pub distribute : List ConsumerMessage → Channels → Channels
  unfolding aggregate put_groups
  distribute cs ch = put_groups (d.range_order (aggregate cs [])) ch

  -- Batches, one after the other.
  unfoldable pub distribute_all : List (List ConsumerMessage) → Channels → Channels
  unfolding distribute
  distribute_all [] ch = ch
  distribute_all (b ∷ bs) ch = distribute_all bs (distribute b ch)
