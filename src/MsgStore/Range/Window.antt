-- ===== src/MsgStore/Range/Window.antt =====
-- The numbers that a range asks for.
use k.Base.{
  ◌⊎◌, inl, inr, refl, dec_le, ℕ, zero, suc, ◌+◌, ◌-◌, ◌≤◌, ◌<◌, ◌≡◌, refl, Bool-cases, inl, inr,
  leb, ltb, All, length, arith, if◌then◌else◌,
}
use k.MsgStore.Range.{count_up, seqs_of, clamp_bounds}

count_up-All :
    (P : ℕ → Type 0) (first n : ℕ)
    → ((m : ℕ) → first ≤ m → m < first + n → P m)
    → All P (count_up first n)
count_up-All P first zero h = tt
count_up-All P first (suc n) h = (
  h first (omega arith) (omega arith),
  count_up-All P (first + 1) n (λ m p q. h m (omega arith) (omega arith)),
)

count_up-length : (first n : ℕ) → length (count_up first n) ≡ n
count_up-length first zero = refl
count_up-length first (suc n) = omega (arith, count_up-length (first + 1) n)

-- Of a range that is not empty, the newest numbers are asked for: as many as there are or `num`,
-- whichever is less, each in the range and fewer than `num` below its end.
pub seqs_of_newest :
    (begin end num : ℕ)
    → begin ≤ end
    → All (λ m. ((begin ≤ m) × (end < m + num)) × (m ≤ end)) (seqs_of begin end num)
      × (length (seqs_of begin end num)
          ≡ (if ltb num (end - begin + 1) then num else end - begin + 1))
unfolding seqs_of
seqs_of_newest begin end num h = elim (Bool-cases (leb (end - begin + 1) num)) [
  | inl e ↦ rw e (
    count_up-All _ begin (end - begin + 1) (λ m p q. ground arith),
    ground (arith, count_up-length begin (end - begin + 1)),
  )
  | inr e ↦ rw e (
    count_up-All _ (end - num + 1) num (λ m p q. ground arith),
    ground (arith, count_up-length (end - num + 1) num),
  )
]

-- The bounds after clamping: nothing below what the user may read, nothing above the newest message
-- or the user's own limit, and nothing outside the request.
pub clamp_bounds_lem :
    (min_seq max_seq user_max_seq begin end : ℕ)
    → let b = clamp_bounds min_seq max_seq user_max_seq begin end in
      (min_seq ≤ b.begin)
      × (begin ≤ b.begin)
      × (b.end ≤ b.max_seq)
      × (b.end ≤ end)
      × (b.max_seq ≤ max_seq)
      × ((user_max_seq ≡ 0) ⊎ (b.max_seq ≤ user_max_seq))
      × (b.min_seq ≡ min_seq)
unfolding clamp_bounds
clamp_bounds_lem min_seq max_seq user_max_seq begin end = elim (dec_le user_max_seq 0) [
  | yes h ↦ (
    ground arith,
    ground arith,
    ground arith,
    ground arith,
    ground arith,
    inl (omega arith),
    refl,
  )
  | no h ↦ (
    ground arith,
    ground arith,
    ground arith,
    ground arith,
    ground arith,
    inr (ground arith),
    refl,
  )
]
