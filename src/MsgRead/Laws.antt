-- ===== src/MsgRead/Laws.antt =====
-- How far a user has read, over the calls that mark messages as read.
use k.Base.{
  ◌≡◌, ◌∙◌, refl, ap, sym, subst, inl, inr, ℕ, ◌+◌, ◌-◌, ◌<◌, ◌≤◌, ltb, Bool, Bool-cases, true,
  false, if◌then◌else◌, Option, none, some, List, [], ◌∷◌, Str, arith, ltb→lt, lt→ltb,
}
use k.Constant.{super_group_chat_type}
use k.MsgStore.Range.{SeqReply, seq_is, seq_nil, seq_error, count_up}
use k.MsgRead.{
  args, set_conversation_has_read_seq, ReadStore, ReadServices, ReadError, ReadOutcome, last_of,
  notify, raise, mark_below, mark_msgs_as_read, mark_some, mark_kind, mark_conversation_as_read,
  with_has_read, written,
}

-- How far the user has read by what the store answers.
abbrev pub read_to : SeqReply → ℕ
read_to (seq_is n) = n
read_to seq_nil = 0
read_to seq_error = 0

-- What is assumed of the store: a read gives the number written last, a write that fails leaves the
-- number, and so do the marks of messages.
pub record KeepsHasRead (db : ReadStore) : Type 0 where
  pub read_set :
      (s : db.Store) (user conv : Str) (n : ℕ)
      → (db.set_has_read_seq s user conv n).1 ≡ true
      → db.get_has_read_seq (db.set_has_read_seq s user conv n).0 user conv ≡ seq_is n
  pub read_not_set :
      (s : db.Store) (user conv : Str) (n : ℕ)
      → (db.set_has_read_seq s user conv n).1 ≡ false
      → db.get_has_read_seq (db.set_has_read_seq s user conv n).0 user conv
        ≡ db.get_has_read_seq s user conv
  pub read_marked :
      (s : db.Store) (user conv : Str) (seqs : List ℕ)
      → db.get_has_read_seq (db.mark_single_chat_msgs_as_read s user conv seqs).0 user conv
        ≡ db.get_has_read_seq s user conv

module _ (db : ReadStore) (services : ReadServices) (laws : KeepsHasRead db) (user conv : Str) where
  open db use {Store, get_has_read_seq}

  abbrev pub reads : Store → ℕ
  reads s = read_to (get_has_read_seq s user conv)

  -- What a call leaves is at least n.
  unfoldable AtLeast : ℕ → ReadOutcome db services → Type 0
  AtLeast n out = n ≤ reads out.0

  at-AtLeast : (n : ℕ) (s : Store) (e : Option ReadError) → n ≤ reads s → AtLeast n (s, e)
  unfolding AtLeast
  at-AtLeast n s e h = h

  notify-AtLeast :
      (n : ℕ) (s : Store) (seqs : List ℕ) (k : ℕ)
      → n ≤ reads s
      → AtLeast n (notify db services s user conv seqs k)
  unfolding notify
  notify-AtLeast n s seqs k h =
      elim (Bool-cases (services.send_mark_as_read_notification user conv seqs k)) [
        | inl e ↦ rw e (at-AtLeast n s none h)
        | inr e ↦ rw e (at-AtLeast n s _ h)
      ]

  written-AtLeast :
      (n : ℕ) (t : Store × Bool) (next : Store → ReadOutcome db services)
      → (t.1 ≡ true → AtLeast n (next t.0))
      → (t.1 ≡ false → n ≤ reads t.0)
      → AtLeast n (written db services t next)
  written-AtLeast n (s, true) next h k = h refl
  written-AtLeast n (s, false) next h k = at-AtLeast n s _ (k refl)

  with_has_read-AtLeast :
      (n : ℕ) (s : Store) (reply : SeqReply) (next : ℕ → ReadOutcome db services)
      → n ≤ reads s
      → AtLeast n (next (read_to reply))
      → AtLeast n (with_has_read db services s reply next)
  with_has_read-AtLeast n s (seq_is k) next h a = a
  with_has_read-AtLeast n s seq_nil next h a = a
  with_has_read-AtLeast n s seq_error next h a = at-AtLeast n s _ h

  raise-AtLeast :
      (n : ℕ) (s : Store) (wanted : ℕ) (next : Store → ReadOutcome db services)
      → n ≤ reads s
      → ((s' : Store) → n ≤ reads s' → AtLeast n (next s'))
      → AtLeast n (raise db services s user conv wanted (reads s) next)
  unfolding raise
  raise-AtLeast n s wanted next h a = elim (Bool-cases (ltb (reads s) wanted)) [
    | inl e ↦
        let lower = ltb→lt (reads s) wanted e in
        rw e (
          written-AtLeast n (db.set_has_read_seq s user conv wanted) next
            (λ ok. a _ (
              subst (λ r. n ≤ read_to r) (sym (laws.read_set s user conv wanted ok)) (omega arith)))
            (λ no. subst (λ r. n ≤ read_to r) (sym (laws.read_not_set s user conv wanted no)) h))
    | inr e ↦ rw e (a s h)
  ]

  marked-reads :
      (n : ℕ) (s : Store) (seqs : List ℕ)
      → n ≤ reads s
      → n ≤ reads (db.mark_single_chat_msgs_as_read s user conv seqs).0
  marked-reads n s seqs h = subst (λ r. n ≤ read_to r) (sym (laws.read_marked s user conv seqs)) h

  mark_below-AtLeast :
      (s : Store) (seqs : List ℕ) (wanted : ℕ)
      → AtLeast (reads s) (mark_below db services s user conv seqs wanted)
  unfolding mark_below
  mark_below-AtLeast s seqs wanted =
      let n = reads s in
      let marked = db.mark_single_chat_msgs_as_read s user conv seqs in
      let kept = marked-reads n s seqs (omega arith) in
      written-AtLeast n marked _
        (λ ok.
          with_has_read-AtLeast n marked.0 (get_has_read_seq marked.0 user conv) _ kept
            (raise-AtLeast n marked.0 wanted _ kept (λ s'. notify-AtLeast n s' seqs wanted)))
        (λ no. kept)

  mark_some-AtLeast :
      (n : ℕ) (s : Store) (seqs : List ℕ) (next : Store → ReadOutcome db services)
      → n ≤ reads s
      → ((s' : Store) → reads s' ≡ reads s → AtLeast n (next s'))
      → AtLeast n (mark_some db services s user conv seqs next)
  unfolding mark_some
  mark_some-AtLeast n s [] next h a = a s refl
  mark_some-AtLeast n s (k ∷ ks) next h a =
      let marked = db.mark_single_chat_msgs_as_read s user conv (k ∷ ks) in
      written-AtLeast n marked next
        (λ ok. a marked.0 (ap read_to (laws.read_marked s user conv (k ∷ ks))))
        (λ no. marked-reads n s (k ∷ ks) h)

  raise_from-AtLeast :
      (n : ℕ) (s : Store) (wanted current : ℕ) (next : Store → ReadOutcome db services)
      → reads s ≡ current
      → n ≤ current
      → ((s' : Store) → n ≤ reads s' → AtLeast n (next s'))
      → AtLeast n (raise db services s user conv wanted current next)
  raise_from-AtLeast n s wanted current next e h a =
      subst (λ k. AtLeast n (raise db services s user conv wanted k next)) e
        (raise-AtLeast n s wanted next (subst (λ k. n ≤ k) (sym e) h) a)

  if-AtLeast :
      (n : ℕ) (b : Bool) (x y : ReadOutcome db services)
      → AtLeast n x
      → AtLeast n y
      → AtLeast n (if b then x else y)
  if-AtLeast n true x y h k = h
  if-AtLeast n false x y h k = k

  mark_kind-AtLeast :
      (s : Store) (kind wanted : ℕ)
      → AtLeast (reads s) (mark_kind db services s user conv kind wanted (reads s))
  unfolding mark_kind
  mark_kind-AtLeast s kind wanted =
      let n = reads s in
      if-AtLeast n _ _ _
        (mark_some-AtLeast n s (count_up (n + 1) (wanted - n)) _ (omega arith) (λ s' e.
          raise_from-AtLeast n s' wanted n _ e (omega arith) (λ s''. notify-AtLeast n s'' _ _)))
        (if-AtLeast n _ _ _
          (raise-AtLeast n s wanted _ (omega arith) (λ s'. notify-AtLeast n s' [] _))
          (at-AtLeast n s none (omega arith)))

  some-AtLeast :
      {A : Type 0} (n : ℕ) (s : Store) (e : ReadError) (o : Option A)
      (next : A → ReadOutcome db services)
      → n ≤ reads s
      → ((a : A) → AtLeast n (next a))
      → AtLeast n
          (elim o as (λ x. ReadOutcome db services) [ none ↦ (s, some e) | some a ↦ next a ])
  some-AtLeast n s e none next h a = at-AtLeast n s _ h
  some-AtLeast n s e (some x) next h a = a x

  mark_msgs_as_read-AtLeast :
      (s : Store) (seqs : List ℕ)
      → AtLeast (reads s) (mark_msgs_as_read db services s user conv seqs)
  unfolding mark_msgs_as_read
  mark_msgs_as_read-AtLeast s [] = at-AtLeast (reads s) s _ (omega arith)
  mark_msgs_as_read-AtLeast s (k ∷ ks) =
      some-AtLeast (reads s) s _ (db.get_max_seq s conv) _ (omega arith) (λ max.
        if-AtLeast (reads s) _ _ _ (at-AtLeast (reads s) s _ (omega arith)) (
          some-AtLeast (reads s) s _ (services.get_conversation user conv) _ (omega arith)
            (λ kind. mark_below-AtLeast s (k ∷ ks) (last_of k ks))))

  mark_conversation_as_read-AtLeast :
      (s : Store) (wanted : ℕ)
      → AtLeast (reads s) (mark_conversation_as_read db services s user conv wanted)
  unfolding mark_conversation_as_read
  mark_conversation_as_read-AtLeast s wanted =
      some-AtLeast (reads s) s _ (services.get_conversation user conv) _ (omega arith) (λ kind.
        with_has_read-AtLeast (reads s) s (get_has_read_seq s user conv) _ (omega arith)
          (mark_kind-AtLeast s kind wanted))

  -- Marking a conversation as read, by its number or by its messages, never lowers how far the user
  -- has read it, with or without an error, if a write that fails leaves the number.
  pub marks_never_lower :
      (s : Store) (seqs : List ℕ) (wanted : ℕ)
      → (reads s ≤ reads (mark_conversation_as_read db services s user conv wanted).0)
        × (reads s ≤ reads (mark_msgs_as_read db services s user conv seqs).0)
  unfolding AtLeast
  marks_never_lower s seqs wanted =
      (mark_conversation_as_read-AtLeast s wanted, mark_msgs_as_read-AtLeast s seqs)

  notify-reads : (s : Store) (seqs : List ℕ) (k : ℕ) → (notify db services s user conv seqs k).0 ≡ s
  unfolding notify
  notify-reads s seqs k = ground arith

  written_ok :
      (t : Store × Bool) (next : Store → ReadOutcome db services)
      → t.1 ≡ true
      → written db services t next ≡ next t.0
  written_ok (s, true) next h = refl
  written_ok (s, false) next h = cc

  -- A number beyond the last message of a group's conversation is refused by one call, and by
  -- another it becomes how far the user has read, if the write succeeds.
  pub read_beyond_max :
      (s : Store) (n max wanted : ℕ)
      → db.get_max_seq s conv ≡ some max
      → max < wanted
      → services.get_conversation user conv ≡ some super_group_chat_type
      → get_has_read_seq s user conv ≡ seq_is n
      → n < wanted
      → (db.set_has_read_seq s user conv wanted).1 ≡ true
      → (set_conversation_has_read_seq db services s user conv wanted ≡ (s, some args))
        × (get_has_read_seq (mark_conversation_as_read db services s user conv wanted).0 user conv
            ≡ seq_is wanted)
  unfolding set_conversation_has_read_seq mark_conversation_as_read mark_kind raise
  read_beyond_max s n max wanted h over kind r below w =
      let next = λ (s' : Store). notify db services s' user conv [] wanted in
      let set = db.set_has_read_seq s user conv wanted in
      (
        rw (h, lt→ltb max wanted over, set_conversation_has_read_seq) refl,
        rw (kind, r, lt→ltb n wanted below, mark_conversation_as_read)
            (ap (λ (o : ReadOutcome db services). get_has_read_seq o.0 user conv)
                (written_ok set next w)
              ∙ ap (λ s'. get_has_read_seq s' user conv) (notify-reads set.0 [] _)
              ∙ laws.read_set s user conv wanted w),
      )
