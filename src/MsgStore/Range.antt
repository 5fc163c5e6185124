-- ===== src/MsgStore/Range.antt =====
-- pkg/common/db/controller/msg.go, `GetMsgBySeqsRange`: which messages of a conversation a user
-- gets for a range of sequence numbers. The caches and the documents are parameters; the second
-- read of the cache, for messages in place of deleted ones, is a loop that need not end.
pub mod Window
pub mod Refill
pub mod Visible
use k.Base.{
  Result, ok, err, ◌>>=◌, or_err, ℕ, zero, suc, ◌+◌, ◌-◌, ◌==◌, ltb, leb, Bool, true, false, not,
  if◌then◌else◌, Option, none, some, List, [], ◌∷◌, ◌++◌, keep, length, ◌||◌,
}

-- A message, of which the function reads the sequence number.
pub record SeqMsg : Type 0 where
  pub seq : ℕ
  pub body : List ℕ

-- `utils.Contain` on sequence numbers.
abbrev pub contains_seq : ℕ → List ℕ → Bool
contains_seq n [] = false
contains_seq n (m ∷ ms) = (m == n) || contains_seq n ms

-- A read of one number in the cache: the number, a missing key (`redis.Nil`, which reads as 0), or
-- another error.
pub data SeqReply : Type 0 where
  seq_is : ℕ → SeqReply
  seq_nil : SeqReply
  seq_error : SeqReply

-- What the function reads: the results of the cache and of the documents for the lists it asks for.
pub record Env : Type 0 where
  pub conversation_user_min_seq : SeqReply
  pub min_seq : SeqReply
  pub max_seq : SeqReply
  -- the messages that the cache has, and the numbers that it has not
  pub get_messages_by_seq : List ℕ → List SeqMsg × List ℕ
  -- none is an error that is not `redis.Nil`
  pub get_user_del_list : Option (List ℕ)
  pub get_from_docs : List ℕ → Option (List SeqMsg)

pub data RangeError : Type 0 where
  cache_error docs_error end_before_begin out_of_fuel : RangeError

abbrev pub read_seq : SeqReply → Result RangeError ℕ
read_seq (seq_is n) = ok n
read_seq seq_nil = ok 0
read_seq seq_error = err cache_error

-- The numbers from `first` on, n of them.
abbrev pub count_up : ℕ → ℕ → List ℕ
count_up first zero = []
count_up first (suc n) = first ∷ count_up (first + 1) n

-- The two loops that fill `seqs`, where begin ≤ end: all of the range, or its last `num`.
unfoldable pub seqs_of : ℕ → ℕ → ℕ → List ℕ
seqs_of begin end num =
    if leb (end - begin + 1) num
    then count_up begin (end - begin + 1)
    else count_up (end - num + 1) num

-- The bounds after the clamping.
pub record Bounds : Type 0 where
  pub min_seq : ℕ
  pub max_seq : ℕ
  pub begin : ℕ
  pub end : ℕ

abbrev pub max_of : ℕ → ℕ → ℕ
max_of a b = if ltb b a then a else b

unfoldable pub clamp_bounds : ℕ → ℕ → ℕ → ℕ → ℕ → Bounds
clamp_bounds min_seq max_seq user_max_seq begin end =
    let top =
      if user_max_seq == 0
      then max_seq
      else if ltb user_max_seq max_seq
      then user_max_seq
      else max_seq in
    record {
      min_seq = min_seq;
      max_seq = top;
      begin = if ltb begin min_seq then min_seq else begin;
      end = if ltb top end then top else end;
    }

-- `for i := 1; i <= cacheDelNum;`: numbers below `newBegin`, downwards, in place of deleted ones.
-- The counter moves only if the number is not deleted.
unfoldable pub refill_loop : ℕ → List ℕ → ℕ → ℕ → ℕ → ℕ → List ℕ → Option (List ℕ)
refill_loop zero dels begin new_begin del_num i found = none
refill_loop (suc fuel) dels begin new_begin del_num i found =
    let next =
      refill_loop fuel dels begin new_begin del_num (i + 1) (found ++ (new_begin - i) ∷ []) in
    let again = refill_loop fuel dels begin new_begin del_num i found in
    if leb i del_num
    then (if leb (begin + i) new_begin
        then (if contains_seq (new_begin - i) dels then again else next)
        else some found)
    else some found

abbrev pub is_deleted : List ℕ → SeqMsg → Bool
is_deleted dels m = contains_seq m.seq dels

abbrev pub head_or : ℕ → List ℕ → ℕ
head_or d [] = d
head_or d (x ∷ xs) = x

-- The messages so far, and the numbers that the cache did not have.
abbrev pub Got : Type 0
Got = List SeqMsg × List ℕ

-- The second read, if there is something to read.
reget : Env → List SeqMsg → List ℕ → List ℕ → Got
reget env msgs missing [] = (msgs, missing)
reget env msgs missing (n ∷ ns) =
    let (more, missing2) = env.get_messages_by_seq (n ∷ ns) in (msgs ++ more, missing ++ missing2)

-- The branch `len(cachedMsgs) > 0`.
unfoldable pub from_cache : ℕ → Env → ℕ → ℕ → Got → Result RangeError Got
unfolding reget refill_loop
from_cache fuel env begin new_begin ([], missing) = ok ([], missing)
from_cache fuel env begin new_begin (m ∷ ms, missing) = do
  dels ← or_err env.get_user_del_list cache_error
  let cached = m ∷ ms
  let kept = keep (λ c. not (is_deleted dels c)) cached
  let del_num = length (keep (is_deleted dels) cached)
  refilled ← or_err (refill_loop fuel dels begin new_begin del_num 1 []) out_of_fuel
  ok (reget env kept missing refilled)

-- The documents for what the cache did not have, in front of the rest.
from_docs : Env → Got → Result RangeError (List SeqMsg)
from_docs env (msgs, []) = ok msgs
from_docs env (msgs, n ∷ ns) = do
  older ← or_err (env.get_from_docs (n ∷ ns)) docs_error
  ok (older ++ msgs)

-- The three results: the bounds that the user may read, and the messages.
pub record Range : Type 0 where
  pub min_seq : ℕ
  pub max_seq : ℕ
  pub msgs : List SeqMsg

abbrev pub no_range : Range
no_range = record { min_seq = 0; max_seq = 0; msgs = [] }

fetch : ℕ → Env → Bounds → List ℕ → Result RangeError Range
unfolding from_cache from_docs
fetch fuel env b [] = ok no_range
fetch fuel env b (n ∷ ns) = do
  got ← from_cache fuel env b.begin n (env.get_messages_by_seq (n ∷ ns))
  msgs ← from_docs env got
  ok (record { min_seq = b.min_seq; max_seq = b.max_seq; msgs = msgs })

clamped : ℕ → Env → ℕ → Bounds → Result RangeError Range
unfolding fetch seqs_of
clamped fuel env num b =
    if ltb b.end b.begin then err end_before_begin else fetch fuel env b (seqs_of b.begin b.end num)

unfoldable pub get_msg_by_seqs_range : ℕ → Env → ℕ → ℕ → ℕ → ℕ → Result RangeError Range
unfolding clamped clamp_bounds
get_msg_by_seqs_range fuel env begin end num user_max_seq = do
  user_min ← read_seq env.conversation_user_min_seq
  conv_min ← read_seq env.min_seq
  let min_seq = max_of user_min conv_min
  if ltb end min_seq then ok no_range else do
    max_seq ← read_seq env.max_seq
    clamped fuel env num (clamp_bounds min_seq max_seq user_max_seq begin end)
