-- ===== src/MsgClear/Laws.antt =====
-- What a user reads of a conversation that the user has cleared.
use k.Base.{
  ◌≡◌, ◌∙◌, refl, sym, ap, subst, inl, inr, if_pos, if_neg, some_eq, ok_inv, ℕ, ◌+◌, ◌<◌, ltb, Bool,
  Bool-cases, Option-cases, true, false, if◌then◌else◌, Option, none, some, List, [], ◌∷◌, Str,
  str_dec, str_eq, str_eq_refl, lookup, Distinct, ok, arith, bind_inv,
}
use k.MsgStore.Range.{
  SeqReply, seq_is, seq_nil, seq_error, Env, Range, read_seq, clamp_bounds, max_of,
  get_msg_by_seqs_range,
}
use k.MsgClear.{
  SeqStore, ClearContext, ClearOutcome, DeleteSyncOpt, validate_delete_sync_opt, get_min_seqs,
  and_then, set_seqs, set_all, clear_conversation, clear_conversations_msg, check_access_v3,
}

-- What is assumed of Redis: a least number that is written is read, by its user and conversation, and
-- the other writes leave it.
pub record KeepsUserMin (db : SeqStore) : Type 0 where
  pub read_min :
      (s : db.Store) (conv c user : Str) (n : ℕ)
      → (db.set_conversation_user_min_seq s conv user n).1 ≡ true
      → db.get_conversation_user_min_seq (db.set_conversation_user_min_seq s conv user n).0 c user
        ≡ (if str_eq conv c then seq_is n else db.get_conversation_user_min_seq s c user)
  pub has_read_apart :
      (s : db.Store) (conv c user : Str) (n : ℕ)
      → db.get_conversation_user_min_seq (db.set_has_read_seq s user conv n).0 c user
        ≡ db.get_conversation_user_min_seq s c user

lookup-get_min_seqs :
    (conv : Str) (maxs : List (Str × ℕ)) (n : ℕ)
    → lookup str_dec conv maxs ≡ some n
    → lookup str_dec conv (get_min_seqs maxs) ≡ some (n + 1)
unfolding get_min_seqs lookup
lookup-get_min_seqs conv [] n h = cc
lookup-get_min_seqs conv ((c, m) ∷ maxs) n h = ground (arith, lookup-get_min_seqs conv maxs n)

get_min_seqs-absent :
    (conv : Str) (maxs : List (Str × ℕ))
    → lookup str_dec conv maxs ≡ none
    → lookup str_dec conv (get_min_seqs maxs) ≡ none
unfolding get_min_seqs lookup
get_min_seqs-absent conv [] h = refl
get_min_seqs-absent conv ((c, m) ∷ maxs) h = ground (arith, get_min_seqs-absent conv maxs)

get_min_seqs-Distinct :
    (maxs : List (Str × ℕ)) → Distinct str_dec maxs → Distinct str_dec (get_min_seqs maxs)
unfolding get_min_seqs
get_min_seqs-Distinct [] d = tt
get_min_seqs-Distinct ((c, m) ∷ maxs) (new, d) =
    (get_min_seqs-absent c maxs new, get_min_seqs-Distinct maxs d)

read_is : (reply : SeqReply) (n m : ℕ) → reply ≡ seq_is n → read_seq reply ≡ ok m → m ≡ n
read_is (seq_is k) n m h e = cc
read_is seq_nil n m h e = cc
read_is seq_error n m h e = cc

clamp_bounds-crossed :
    (low top user_max_seq begin end : ℕ)
    → top < low
    → let b = clamp_bounds low top user_max_seq begin end in ltb b.end b.begin ≡ true
unfolding clamp_bounds
clamp_bounds-crossed low top user_max_seq begin end h = ground arith

max_of-above : (a b n : ℕ) → n < a → n < max_of a b
max_of-above a b n h = ground arith

-- Nothing is read where the user's least number is one beyond the last message.
past_the_end :
    (fuel : ℕ) (env : Env) (m begin end num user_max_seq : ℕ) (r : Range)
    → env.conversation_user_min_seq ≡ seq_is (m + 1)
    → env.max_seq ≡ seq_is m
    → get_msg_by_seqs_range fuel env begin end num user_max_seq ≡ ok r
    → r.msgs ≡ []
unfolding get_msg_by_seqs_range clamp_bounds
past_the_end fuel env m begin end num user_max_seq r h k e =
    let (user_min, a, e₁) = bind_inv (read_seq env.conversation_user_min_seq) _ e in
    let (conv_min, b, e₂) = bind_inv (read_seq env.min_seq) _ e₁ in
    let least = read_is env.conversation_user_min_seq (m + 1) user_min h a in
    let low = max_of user_min conv_min in
    elim (Bool-cases (ltb end low)) [
      | inl x ↦ ap (λ (o : Range). o.msgs) (sym (ok_inv (rw x at e₂)))
      | inr x ↦
          let (top, c, e₃) = bind_inv (read_seq env.max_seq) _ (rw x at e₂) in
          let last = read_is env.max_seq m top k c in
          let beyond = max_of-above user_min conv_min top (omega (arith, least, last)) in
          let e₄ = rw (clamp_bounds-crossed low top user_max_seq begin end beyond) at e₃ in cc
    ]

module _ (db : SeqStore) (laws : KeepsUserMin db) (user conv : Str) where
  open db use {Store, get_conversation_user_min_seq}

  abbrev user_min : Store → SeqReply
  user_min s = get_conversation_user_min_seq s conv user

  and_then-none :
      (step : Store × Bool) (next : Store → ClearOutcome db)
      → (and_then db step next).1 ≡ none
      → (step.1 ≡ true) × ((next step.0).1 ≡ none) × (and_then db step next ≡ next step.0)
  and_then-none (s, true) next h = (refl, h, refl)
  and_then-none (s, false) next h = cc

  and_then-user_min :
      (x : SeqReply) (step : Store × Bool) (next : Store → ClearOutcome db)
      → user_min step.0 ≡ x
      → user_min (next step.0).0 ≡ x
      → user_min (and_then db step next).0 ≡ x
  and_then-user_min x (s, true) next h k = k
  and_then-user_min x (s, false) next h k = h

  abbrev set_read : Store → Str → ℕ → Store × Bool
  set_read s c n = db.set_has_read_seq s user c n

  abbrev set_user : Store → Str → ℕ → Store × Bool
  set_user s c n = db.set_conversation_user_min_seq s c user n

  set_read-user_min :
      (seqs : List (Str × ℕ)) (s : Store)
      → user_min (set_seqs db set_read seqs (λ s'. (s', none)) s).0 ≡ user_min s
  unfolding set_seqs
  set_read-user_min [] s = refl
  set_read-user_min ((c, n) ∷ seqs) s =
      let step = db.set_has_read_seq s user c n in
      let one = laws.has_read_apart s c conv user n in
      and_then-user_min (user_min s) step (set_seqs db set_read seqs (λ s'. (s', none))) one
        (set_read-user_min seqs step.0 ∙ one)

  module _ (next : Store → ClearOutcome db)
      (keeps : (s : Store) → user_min (next s).0 ≡ user_min s) where
    set_user-kept :
        (seqs : List (Str × ℕ)) (s : Store)
        → lookup str_dec conv seqs ≡ none
        → (set_seqs db set_user seqs next s).1 ≡ none
        → user_min (set_seqs db set_user seqs next s).0 ≡ user_min s
    unfolding set_seqs lookup
    set_user-kept [] s h ok_ = keeps s
    set_user-kept ((c, n) ∷ seqs) s h ok_ =
        let step = db.set_conversation_user_min_seq s c user n in
        let (a, b, e) = and_then-none step (set_seqs db set_user seqs next) ok_ in
        let wrote = laws.read_min s c conv user n a in
        ap (λ (o : ClearOutcome db). user_min o.0) e
        ∙ ground (arith, wrote, set_user-kept seqs step.0)

    set_user-read :
        (seqs : List (Str × ℕ)) (s : Store) (m : ℕ)
        → lookup str_dec conv seqs ≡ some m
        → Distinct str_dec seqs
        → (set_seqs db set_user seqs next s).1 ≡ none
        → user_min (set_seqs db set_user seqs next s).0 ≡ seq_is m
    unfolding set_seqs lookup
    set_user-read [] s m h d ok_ = cc
    set_user-read ((c, n) ∷ seqs) s m h (new, d) ok_ =
        let step = db.set_conversation_user_min_seq s c user n in
        let (a, b, e) = and_then-none step (set_seqs db set_user seqs next) ok_ in
        let wrote = laws.read_min s c conv user n a in
        ap (λ (o : ClearOutcome db). user_min o.0) e ∙ elim (str_dec c conv) [
          | yes p ↦
              let h' =
                some_eq (sym (if_pos (str_dec c conv) p (some n) (lookup str_dec conv seqs)) ∙ h) in
              let gone = subst (λ k. lookup str_dec k seqs ≡ none) p new in
              set_user-kept seqs step.0 gone b ∙ wrote ∙ rw (← p, str_eq_refl c) (ap seq_is h')
          | no q ↦
              let h' = sym (if_neg (str_dec c conv) q (some n) (lookup str_dec conv seqs)) ∙ h in
              set_user-read seqs step.0 m h' d b
        ]

  cleared_min :
      (c : ClearContext) (s : Store) (ids existing : List Str) (opt : Option DeleteSyncOpt)
      (maxs : List (Str × ℕ)) (m : ℕ)
      → (validate_delete_sync_opt opt).1 ≡ false
      → c.get_conversations_by_conversation_id ids ≡ some existing
      → db.get_max_seqs s existing ≡ some maxs
      → Distinct str_dec maxs
      → lookup str_dec conv maxs ≡ some m
      → (clear_conversations_msg db c s ids user opt).1 ≡ none
      → user_min (clear_conversations_msg db c s ids user opt).0 ≡ seq_is (m + 1)
  unfolding clear_conversations_msg clear_conversation set_all
  cleared_min c s ids existing opt maxs m alone there has d last done =
      elim (Option-cases (check_access_v3 c user)) [
        | inl a ↦
            let done' =
              rw (a, there, has, alone, clear_conversations_msg, clear_conversation, set_all) at
                done in
            rw (a, there, has, alone, clear_conversations_msg, clear_conversation, set_all)
              (set_user-read (set_seqs db set_read maxs (λ s'. (s', none))) (set_read-user_min maxs)
                (get_min_seqs maxs) s (m + 1) (lookup-get_min_seqs conv maxs m last)
                (get_min_seqs-Distinct maxs d) done')
        | inr (x, a) ↦ let done' = rw (a, clear_conversations_msg) at done in cc
      ]

  -- What a user clears without an error is empty for the user: of a conversation whose last message
  -- Redis knew, GetMsgBySeqsRange then gives no message while that is still the last, whichever range
  -- is asked for, if the clearing is for the user alone.
  pub cleared_reads_nothing :
      (c : ClearContext) (s : Store) (ids existing : List Str) (opt : Option DeleteSyncOpt)
      (maxs : List (Str × ℕ)) (m : ℕ) (env : Env) (fuel begin end num user_max_seq : ℕ) (r : Range)
      → (validate_delete_sync_opt opt).1 ≡ false
      → c.get_conversations_by_conversation_id ids ≡ some existing
      → db.get_max_seqs s existing ≡ some maxs
      → Distinct str_dec maxs
      → lookup str_dec conv maxs ≡ some m
      → (clear_conversations_msg db c s ids user opt).1 ≡ none
      → env.conversation_user_min_seq
        ≡ get_conversation_user_min_seq (clear_conversations_msg db c s ids user opt).0 conv user
      → env.max_seq ≡ seq_is m
      → get_msg_by_seqs_range fuel env begin end num user_max_seq ≡ ok r
      → r.msgs ≡ []
  cleared_reads_nothing c s ids existing opt maxs m env fuel begin end num user_max_seq r alone
        there has d last done min max e =
      past_the_end fuel env m begin end num user_max_seq r
        (min ∙ cleared_min c s ids existing opt maxs m alone there has d last done) max e
