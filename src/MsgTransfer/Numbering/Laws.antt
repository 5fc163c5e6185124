-- ===== src/MsgTransfer/Numbering/Laws.antt =====
-- The numbers that messages get.
use k.Base.{
  subst, some_eq, ◌⊎◌, ◌++◌, ◌≡◌, ◌∙◌, refl, ap, sym, inl, inr, ℕ, suc, ◌+◌, Bool, true, false,
  if◌then◌else◌, Option, none, some, List, [], ◌∷◌, length, Str, arith,
}
use k.MsgStore.Convert.{MsgData}
use k.MsgStore.Range.{SeqReply, seq_is, seq_nil, seq_error}
use k.MsgTransfer.Numbering.{
  MsgCache, InsertError, set_max_seq_error, number, insert_numbered, insert_after,
  batch_insert_chat2cache,
}

-- The messages have the numbers after `seq`, one after the other.
abbrev pub Consecutive : ℕ → List MsgData → Type 0
Consecutive seq [] = Unit
Consecutive seq (m ∷ ms) = (m.seq ≡ seq + 1) × Consecutive (seq + 1) ms

number-Consecutive : (seq : ℕ) (ms : List MsgData) → Consecutive seq (number seq ms)
unfolding number
number-Consecutive seq [] = tt
number-Consecutive seq (m ∷ ms) = (refl, number-Consecutive (seq + 1) ms)

length-number : (seq : ℕ) (ms : List MsgData) → length (number seq ms) ≡ length ms
unfolding number
length-number seq [] = refl
length-number seq (m ∷ ms) = ap suc (length-number (seq + 1) ms)

-- What is assumed of Redis: a number that is written is read, and the other write leaves it.
pub record KeepsMaxSeq (redis : MsgCache) (conv : Str) : Type 0 where
  pub read_written :
      (c : redis.Cache) (n : ℕ)
      → (redis.set_max_seq c conv n).1 ≡ true
      → redis.get_max_seq (redis.set_max_seq c conv n).0 conv ≡ seq_is n
  pub has_read_apart :
      (c : redis.Cache) (t : List (Str × ℕ))
      → redis.get_max_seq (redis.set_has_read_seqs c conv t).0 conv ≡ redis.get_max_seq c conv

-- The number that a conversation has reached.
abbrev pub reached : SeqReply → Option ℕ
reached (seq_is n) = some n
reached seq_nil = some 0
reached seq_error = none

if_none : (e : InsertError) (b : Bool) → (if b then none else some e) ≡ none → b ≡ true
if_none e b h = ground arith

Consecutive-append :
    (seq : ℕ) (xs ys : List MsgData)
    → Consecutive seq xs
    → Consecutive (seq + length xs) ys
    → Consecutive seq (xs ++ ys)
Consecutive-append seq [] ys h k = subst (λ n. Consecutive n ys) (omega arith) k
Consecutive-append seq (x ∷ xs) ys (e, h) k =
    (e, Consecutive-append (seq + 1) xs ys h (subst (λ n. Consecutive n ys) (omega arith) k))

SeqReply-cases : (r : SeqReply) → ((n : ℕ) × (r ≡ seq_is n)) ⊎ (r ≡ seq_nil) ⊎ (r ≡ seq_error)
SeqReply-cases (seq_is n) = inl (n, refl)
SeqReply-cases seq_nil = inr (inl refl)
SeqReply-cases seq_error = inr (inr refl)

module _ (redis : MsgCache) (conv : Str) where
  open redis use {Cache, get_max_seq}

  -- A call without an error wrote all.
  pub insert_after-none :
      (c : Cache) (ms : List MsgData) (n : ℕ) (is_new : Bool)
      → (insert_after redis conv c ms n is_new).error ≡ none
      → insert_after redis conv c ms n is_new ≡ insert_numbered redis conv c ms n is_new
  unfolding insert_after
  insert_after-none c ms n is_new h = ground arith

  -- What the call did where it ends without an error: it numbered the messages after what the
  -- conversation had reached.
  pub inserted_lem :
      (c : Cache) (ms : List MsgData)
      → (batch_insert_chat2cache redis conv c ms).error ≡ none
      → (n : ℕ) × (is_new : Bool) × (reached (get_max_seq c conv) ≡ some n)
        × (batch_insert_chat2cache redis conv c ms ≡ insert_numbered redis conv c ms n is_new)
  unfolding batch_insert_chat2cache
  inserted_lem c ms h = elim (SeqReply-cases (get_max_seq c conv)) [
    | inl (n, e) ↦
        let h' = rw (e, batch_insert_chat2cache) at h in
        rw (e, batch_insert_chat2cache) (n, false, refl, insert_after-none c ms n false h')
    | inr (inl e) ↦
        let h' = rw (e, batch_insert_chat2cache) at h in
        rw (e, batch_insert_chat2cache) (0, true, refl, insert_after-none c ms 0 true h')
    | inr (inr e) ↦ let h' = rw (e, batch_insert_chat2cache) at h in cc
  ]

  -- Where a batch is inserted without an error its messages have the numbers that follow what the
  -- conversation had reached, in the order of the batch, and the cache then holds the last of them.
  pub batch_insert_chat2cache-Consecutive :
      (c : Cache) (ms : List MsgData)
      → KeepsMaxSeq redis conv
      → (batch_insert_chat2cache redis conv c ms).error ≡ none
      → let r = batch_insert_chat2cache redis conv c ms in
        (reached (get_max_seq c conv) ≡ some r.seq)
        × Consecutive r.seq r.msgs
        × (length r.msgs ≡ length ms)
        × (get_max_seq r.cache conv ≡ seq_is (r.seq + length ms))
  unfolding insert_numbered
  batch_insert_chat2cache-Consecutive c ms laws h =
      let (n, is_new, e, same) = inserted_lem c ms h in
      let h' = rw same at h in
      rw same (
        e,
        number-Consecutive n ms,
        length-number n ms,
        laws.has_read_apart _ _ ∙ laws.read_written _ _ (if_none set_max_seq_error _ h'),
      )

  -- Two batches one after the other, both inserted without an error, get numbers without an overlap
  -- and without a gap.
  pub batches_follow :
      (c : Cache) (first second : List MsgData)
      → KeepsMaxSeq redis conv
      → (batch_insert_chat2cache redis conv c first).error ≡ none
      → (batch_insert_chat2cache redis conv
          (batch_insert_chat2cache redis conv c first).cache
          second).error
        ≡ none
      → let r = batch_insert_chat2cache redis conv c first in
        let s = batch_insert_chat2cache redis conv r.cache second in
        Consecutive r.seq (r.msgs ++ s.msgs)
  batches_follow c first second laws h k =
      let r = batch_insert_chat2cache redis conv c first in
      let (_, one, long, max) = batch_insert_chat2cache-Consecutive c first laws h in
      let (start, two, _, _) = batch_insert_chat2cache-Consecutive r.cache second laws k in
      let same : r.seq + length first ≡ (batch_insert_chat2cache redis conv r.cache second).seq =
        some_eq (ap reached (sym max) ∙ start) in
      let s = batch_insert_chat2cache redis conv r.cache second in
      Consecutive-append r.seq r.msgs s.msgs one
        (subst (λ n. Consecutive n s.msgs) (sym same ∙ ap (λ n. r.seq + n) (sym long)) two)
