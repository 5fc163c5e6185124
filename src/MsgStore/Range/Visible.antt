-- ===== src/MsgStore/Range/Visible.antt =====
-- Which messages a reader of a range can see.
use k.Base.{
  some_eq, Result, ok, ◌>>=◌, ok_inv, or_err_inv, bind_inv, sym, subst, keep-true, keep-false, ap,
  ◌∙◌, ℕ, ◌≤◌, ◌<◌, ◌≡◌, ◌⊎◌, refl, Bool, Bool-cases, inl, inr, true, false, not, ltb, some, List,
  [], ◌∷◌, All, All-append, keep, length, arith,
}
use k.MsgStore.Range.{
  SeqMsg, Env, Bounds, RangeError, Range, Got, contains_seq, is_deleted, from_cache, from_docs,
  reget, fetch, clamped, get_msg_by_seqs_range, seqs_of, refill_loop, clamp_bounds, max_of,
  read_seq, SeqReply, seq_is, seq_nil, seq_error,
}
use k.MsgStore.Range.Window.{seqs_of_newest, clamp_bounds_lem}
use k.MsgStore.Range.Refill.{refill_loop-Replacement}

-- The cache and the documents answer with messages that they were asked for, the documents for
-- numbers from 1 on: the index of 0 is -1, which is the last element's.
pub record Answers (env : Env) : Type 1 where
  pub cached :
      (P : ℕ → Type 0) (ns : List ℕ) → All P ns → All (λ m. P m.seq) (env.get_messages_by_seq ns).0
  pub missing : (P : ℕ → Type 0) (ns : List ℕ) → All P ns → All P (env.get_messages_by_seq ns).1
  pub stored :
      (P : ℕ → Type 0) (ns : List ℕ) (ms : List SeqMsg)
      → All P ns
      → All (λ n. 0 < n) ns
      → env.get_from_docs ns ≡ some ms
      → All (λ m. P m.seq) ms

read_seq_inv {κ} :
    {B : Type κ} (o : SeqReply) (f : ℕ → Result RangeError B) {r : B}
    → (read_seq o >>= f) ≡ ok r
    → (n : ℕ) × (f n ≡ ok r)
read_seq_inv (seq_is n) f h = (n, h)
read_seq_inv seq_nil f h = (0, h)
read_seq_inv seq_error f h = cc

not_ltb : {a b : ℕ} → ltb a b ≡ false → b ≤ a
not_ltb h = ground arith

not-true : {b : Bool} → not b ≡ true → b ≡ false
not-true h = ground arith

All-keep {ℓ κ} :
    {A : Type ℓ} (P : A → Type κ) (t : A → Bool) (xs : List A) → All P xs → All P (keep t xs)
All-keep P t [] h = tt
All-keep P t (x ∷ xs) h = elim (Bool-cases (t x)) [
  | inl e ↦ subst (All P) (sym (keep-true t x xs e)) (h.0, All-keep P t xs h.1)
  | inr e ↦ subst (All P) (sym (keep-false t x xs e)) (All-keep P t xs h.1)
]

All-keep_self {ℓ} : {A : Type ℓ} (t : A → Bool) (xs : List A) → All (λ x. t x ≡ true) (keep t xs)
All-keep_self t [] = tt
All-keep_self t (x ∷ xs) = elim (Bool-cases (t x)) [
  | inl e ↦ subst (All (λ y. t y ≡ true)) (sym (keep-true t x xs e)) (e, All-keep_self t xs)
  | inr e ↦ subst (All (λ y. t y ≡ true)) (sym (keep-false t x xs e)) (All-keep_self t xs)
]

All-map {ℓ κ μ} :
    {A : Type ℓ} (P : A → Type κ) (Q : A → Type μ) (xs : List A)
    → ((x : A) → P x → Q x)
    → All P xs
    → All Q xs
All-map P Q [] f h = tt
All-map P Q (x ∷ xs) f h = (f x h.0, All-map P Q xs f h.1)

module _ (env : Env) (answers : Answers env) where
  -- A successful run of the branch: what the loop found, and the result.
  from_cache_inv :
      (fuel begin new_begin : ℕ) (m : SeqMsg) (ms : List SeqMsg) (missing dels : List ℕ) (r : Got)
      → env.get_user_del_list ≡ some dels
      → from_cache fuel env begin new_begin (m ∷ ms, missing) ≡ ok r
      → (refilled : List ℕ) × (refill_loop fuel dels begin new_begin
            (length (keep (is_deleted dels) (m ∷ ms)))
            1
            []
          ≡ some refilled)
        × (reget env (keep (λ c. not (is_deleted dels c)) (m ∷ ms)) missing refilled ≡ r)
  unfolding from_cache
  from_cache_inv fuel begin new_begin m ms missing dels r d e =
      let (dels', d', e') = or_err_inv env.get_user_del_list _ _ e in
      let same : dels' ≡ dels = some_eq (sym d' ∙ d) in
      let (found, f, g) =
        or_err_inv
          (refill_loop fuel dels' begin new_begin (length (keep (is_deleted dels') (m ∷ ms))) 1 [])
          _ _ e' in
      subst
        (λ (ds : List ℕ).
          (refilled : List ℕ) × (refill_loop fuel ds begin new_begin
              (length (keep (is_deleted ds) (m ∷ ms))) 1 []
            ≡ some refilled)
          × (reget env (keep (λ c. not (is_deleted ds c)) (m ∷ ms)) missing refilled ≡ r))
        same (found, f, ok_inv g)

  reget-msgs :
      (P : ℕ → Type 0) (msgs : List SeqMsg) (missing ns : List ℕ)
      → All (λ m. P m.seq) msgs
      → All P ns
      → All (λ m. P m.seq) (reget env msgs missing ns).0
  unfolding reget
  reget-msgs P msgs missing [] a c = a
  reget-msgs P msgs missing (n ∷ ns) a c = All-append _ msgs _ a (answers.cached P (n ∷ ns) c)

  reget-All :
      (P : ℕ → Type 0) (msgs : List SeqMsg) (missing ns : List ℕ)
      → All (λ m. P m.seq) msgs
      → All P missing
      → All P ns
      → All (λ m. P m.seq) (reget env msgs missing ns).0 × All P (reget env msgs missing ns).1
  unfolding reget
  reget-All P msgs missing [] a b c = (a, b)
  reget-All P msgs missing (n ∷ ns) a b c = (
    All-append _ msgs _ a (answers.cached P (n ∷ ns) c),
    All-append P missing _ b (answers.missing P (n ∷ ns) c),
  )

  -- What the cache gives of a user's messages: a message that the user has deleted is not among
  -- them, neither of those that were asked for nor of those read in their place.
  pub from_cache_hides_deleted :
      (fuel begin new_begin : ℕ) (got : Got) (dels : List ℕ) (r : Got)
      → env.get_user_del_list ≡ some dels
      → from_cache fuel env begin new_begin got ≡ ok r
      → All (λ m. contains_seq m.seq dels ≡ false) r.0
  unfolding from_cache
  from_cache_hides_deleted fuel begin new_begin ([], missing) dels r d e =
      subst (λ (g : Got). All (λ m. contains_seq m.seq dels ≡ false) g.0) (ok_inv e) tt
  from_cache_hides_deleted fuel begin new_begin (m ∷ ms, missing) dels r d e =
      let (refilled, f, g) = from_cache_inv fuel begin new_begin m ms missing dels r d e in
      subst (λ (g : Got). All (λ m. contains_seq m.seq dels ≡ false) g.0) g
        (reget-msgs (λ n. contains_seq n dels ≡ false) _ missing refilled
          (All-map _ _ _ (λ x h. not-true h)
            (All-keep_self (λ c. not (is_deleted dels c)) (m ∷ ms)))
          (All-map _ _ refilled (λ x h. h.2)
            (refill_loop-Replacement fuel dels begin new_begin _ 1 [] refilled (omega arith) tt f)))

  -- What the cache or the documents give of the numbers that satisfy a predicate satisfies it, if the
  -- numbers read in place of deleted ones do.
  from_cache-All :
      (P : ℕ → Type 0) (fuel begin new_begin : ℕ) (got r : Got)
      → ((m : ℕ) → begin ≤ m → m < new_begin → P m)
      → All (λ m. P m.seq) got.0
      → All P got.1
      → from_cache fuel env begin new_begin got ≡ ok r
      → All (λ m. P m.seq) r.0 × All P r.1
  unfolding from_cache
  from_cache-All P fuel begin new_begin ([], missing) r h a b e =
      subst (λ (g : Got). All (λ m. P m.seq) g.0 × All P g.1) (ok_inv e) (tt, b)
  from_cache-All P fuel begin new_begin (m ∷ ms, missing) r h a b e =
      let (dels, d, _) = or_err_inv env.get_user_del_list _ _ e in
      let (refilled, f, g) = from_cache_inv fuel begin new_begin m ms missing dels r d e in
      subst (λ (g : Got). All (λ m. P m.seq) g.0 × All P g.1) g
        (reget-All P _ missing refilled
          (All-keep (λ m. P m.seq) (λ c. not (is_deleted dels c)) (m ∷ ms) a) b
          (All-map _ P refilled (λ x q. h x q.0 q.1)
            (refill_loop-Replacement fuel dels begin new_begin _ 1 [] refilled (omega arith) tt f)))

  from_docs-All :
      (P : ℕ → Type 0) (got : Got) (ms : List SeqMsg)
      → ((m : ℕ) → P m → 0 < m)
      → All (λ m. P m.seq) got.0
      → All P got.1
      → from_docs env got ≡ ok ms
      → All (λ m. P m.seq) ms
  unfolding from_docs
  from_docs-All P (msgs, []) ms pos_ a b e = subst (All (λ m. P m.seq)) (ok_inv e) a
  from_docs-All P (msgs, n ∷ ns) ms pos_ a b e =
      let (older, f, g) = or_err_inv (env.get_from_docs (n ∷ ns)) _ _ e in
      subst (All (λ m. P m.seq)) (ok_inv g) (
        All-append _ older msgs
          (answers.stored P (n ∷ ns) older b (All-map P (λ m. 0 < m) (n ∷ ns) pos_ b) f) a)

  abbrev Sees : Bounds → Range → Type 0
  Sees b r =
      (r.msgs ≡ [])
      ⊎ ((r.min_seq ≡ b.min_seq)
          × (r.max_seq ≡ b.max_seq)
          × All (λ m. (b.begin ≤ m.seq) × (m.seq ≤ b.end)) r.msgs)

  fetch-Sees :
      (fuel : ℕ) (b : Bounds) (ns : List ℕ) (r : Range)
      → 0 < b.begin
      → All (λ m. (b.begin ≤ m) × (m ≤ b.end)) ns
      → fetch fuel env b ns ≡ ok r
      → Sees b r
  unfolding fetch
  fetch-Sees fuel b [] r first a e = inl (ap (λ (t : Range). t.msgs) (sym (ok_inv e)))
  fetch-Sees fuel b (n ∷ ns) r first a e =
      let (got, c, e') =
        bind_inv (from_cache fuel env b.begin n (env.get_messages_by_seq (n ∷ ns))) _ e in
      let (ms, d, g) = bind_inv (from_docs env got) _ e' in
      let P = λ (m : ℕ). (b.begin ≤ m) × (m ≤ b.end) in
      let (x, y) =
        from_cache-All P fuel b.begin n (env.get_messages_by_seq (n ∷ ns)) got
          (λ m p q. (p, omega arith)) (answers.cached P (n ∷ ns) a) (answers.missing P (n ∷ ns) a)
          c in
      subst (Sees b) (ok_inv g)
        (inr (refl, refl, from_docs-All P got ms (λ m h. omega (arith, first, h.0)) x y d))

  clamped-Sees :
      (fuel num : ℕ) (b : Bounds) (r : Range)
      → 0 < b.begin
      → clamped fuel env num b ≡ ok r
      → Sees b r
  unfolding clamped
  clamped-Sees fuel num b r first e = elim (Bool-cases (ltb b.end b.begin)) [
    | inl x ↦ ground arith
    | inr x ↦
        fetch-Sees fuel b (seqs_of b.begin b.end num) r first
          (All-map _ _ _ (λ m h. (h.0.0, h.1)) (seqs_of_newest b.begin b.end num (not_ltb x)).0)
          (rw x at e)
  ]

  abbrev Shows : ℕ → ℕ → Range → Type 0
  Shows begin end r =
      All (λ m. ((r.min_seq ≤ m.seq) × (m.seq ≤ r.max_seq)) × ((begin ≤ m.seq) × (m.seq ≤ end)))
        r.msgs

  Sees-Shows :
      (begin end : ℕ) (b : Bounds) (r : Range) {low top limit : ℕ}
      → (low ≤ b.begin)
        × (begin ≤ b.begin)
        × (b.end ≤ b.max_seq)
        × (b.end ≤ end)
        × (b.max_seq ≤ top)
        × ((limit ≡ 0) ⊎ (b.max_seq ≤ limit))
        × (b.min_seq ≡ low)
      → Sees b r
      → Shows begin end r
  Sees-Shows begin end b r k (inl none_left) =
      subst
        (All (λ m. ((r.min_seq ≤ m.seq) × (m.seq ≤ r.max_seq)) × ((begin ≤ m.seq) × (m.seq ≤ end))))
        (sym none_left) tt
  Sees-Shows begin end b r k (inr (p, q, a)) =
      All-map _ _ r.msgs (λ m h. ((omega arith, omega arith), (omega arith, omega arith))) a

  -- Of a range from 1 or a later number on, every message of the result has a sequence number between
  -- the bounds that come with it, the least and the greatest that the user may read, and inside the
  -- requested range.
  pub get_msg_by_seqs_range-visible :
      (fuel begin end num user_max_seq : ℕ) (r : Range)
      → 0 < begin
      → get_msg_by_seqs_range fuel env begin end num user_max_seq ≡ ok r
      → All
          (λ m. ((r.min_seq ≤ m.seq) × (m.seq ≤ r.max_seq)) × ((begin ≤ m.seq) × (m.seq ≤ end)))
          r.msgs
  unfolding get_msg_by_seqs_range
  get_msg_by_seqs_range-visible fuel begin end num user_max_seq r first e =
      let (user_min, e₁) = read_seq_inv env.conversation_user_min_seq _ e in
      let (conv_min, e₂) = read_seq_inv env.min_seq _ e₁ in
      let low = max_of user_min conv_min in
      elim (Bool-cases (ltb end low)) [
        | inl x ↦ subst (Shows begin end) (ok_inv (rw x at e₂)) tt
        | inr x ↦
            let (top, e₄) = read_seq_inv env.max_seq _ (rw x at e₂) in
            let b = clamp_bounds low top user_max_seq begin end in
            let bounds = clamp_bounds_lem low top user_max_seq begin end in
            Sees-Shows begin end b r bounds
              (clamped-Sees fuel num b r (omega (arith, first, bounds.1)) e₄)
      ]
