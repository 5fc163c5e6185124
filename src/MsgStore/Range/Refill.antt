-- ===== src/MsgStore/Range/Refill.antt =====
-- The loop that looks for messages in place of deleted ones.
use k.Base.{
  subst, ◌⊎◌, tests, ℕ, zero, suc, ◌+◌, ◌-◌, ◌≤◌, ◌<◌, ◌≡◌, ◌≢◌, refl, Bool-cases, inl, inr, true,
  false, leb, none, some, List, [], ◌∷◌, ◌++◌, All, All-append, arith, tests, le→leb,
}
use k.MsgStore.Range.{refill_loop, contains_seq}

-- Whenever the number that the loop looks at is itself deleted, the loop never ends: it is still
-- running after any number of rounds.
pub refill_loop_diverges :
    (fuel : ℕ) (dels : List ℕ) (begin new_begin del_num i : ℕ) (found : List ℕ)
    → i ≤ del_num
    → begin + i ≤ new_begin
    → contains_seq (new_begin - i) dels ≡ true
    → refill_loop fuel dels begin new_begin del_num i found ≡ none
unfolding refill_loop
refill_loop_diverges zero dels begin new_begin del_num i found p q r = refl
refill_loop_diverges (suc fuel) dels begin new_begin del_num i found p q r =
    rw (le→leb i del_num p, le→leb (begin + i) new_begin q, r)
      (refill_loop_diverges fuel dels begin new_begin del_num i found p q r)

not_contained :
    (m begin new_begin : ℕ) (dels : List ℕ)
    → begin ≤ m
    → m < new_begin
    → All (λ d. (d < begin) ⊎ (new_begin ≤ d)) dels
    → contains_seq m dels ≡ false
not_contained m begin new_begin [] p q a = refl
not_contained m begin new_begin (d ∷ dels) p q a =
    ground (arith, not_contained m begin new_begin dels p q a.1)

-- Where none of the numbers between `begin` and `newBegin` is deleted, the loop ends.
pub refill_loop_ends :
    (fuel : ℕ) (dels : List ℕ) (begin new_begin del_num i : ℕ) (found : List ℕ)
    → All (λ d. (d < begin) ⊎ (new_begin ≤ d)) dels
    → 0 < i
    → i ≤ del_num + 1
    → del_num + 1 < fuel + i
    → refill_loop fuel dels begin new_begin del_num i found ≢ none
unfolding refill_loop
refill_loop_ends zero dels begin new_begin del_num i found a p l q = absurd (omega arith)
refill_loop_ends (suc fuel) dels begin new_begin del_num i found a p l q =
    elim (Bool-cases (leb i del_num)) [
      | inr x ↦ rw x (λ e. cc)
      | inl x ↦ elim (Bool-cases (leb (begin + i) new_begin)) [
        | inr y ↦ rw (x, y) (λ e. cc)
        | inl y ↦
            rw
              (
                x,
                y,
                not_contained (new_begin - i) begin new_begin dels (omega tests) (omega tests) a,
              )
              (refill_loop_ends fuel dels begin new_begin del_num (i + 1)
                (found ++ (new_begin - i) ∷ []) a (omega arith) (omega tests) (omega arith))
      ]
    ]

abbrev pub Replacement : List ℕ → ℕ → ℕ → ℕ → Type 0
Replacement dels begin new_begin m = (begin ≤ m) × (m < new_begin) × (contains_seq m dels ≡ false)

-- What the loop finds is in the range, below the first number that was asked for, and not deleted.
pub refill_loop-Replacement :
    (fuel : ℕ) (dels : List ℕ) (begin new_begin del_num i : ℕ) (found r : List ℕ)
    → 0 < i
    → All (Replacement dels begin new_begin) found
    → refill_loop fuel dels begin new_begin del_num i found ≡ some r
    → All (Replacement dels begin new_begin) r
unfolding refill_loop
refill_loop-Replacement zero dels begin new_begin del_num i found r p a e = cc
refill_loop-Replacement (suc fuel) dels begin new_begin del_num i found r p a e =
    elim (Bool-cases (leb i del_num)) [
      | inr x ↦ subst (All (Replacement dels begin new_begin)) (ground arith) a
      | inl x ↦ elim (Bool-cases (leb (begin + i) new_begin)) [
        | inr y ↦ subst (All (Replacement dels begin new_begin)) (ground arith) a
        | inl y ↦ elim (Bool-cases (contains_seq (new_begin - i) dels)) [
          | inl z ↦
              refill_loop-Replacement fuel dels begin new_begin del_num i found r p a
                (rw (x, y, z) at e)
          | inr z ↦
              refill_loop-Replacement fuel dels begin new_begin del_num (i + 1)
                (found ++ (new_begin - i) ∷ []) r (omega arith)
                (All-append (Replacement dels begin new_begin) found ((new_begin - i) ∷ []) a
                  ((omega tests, omega tests, z), tt))
                (rw (x, y, z) at e)
        ]
      ]
    ]
