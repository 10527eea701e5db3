-- ===== src/Siem/Metrics/Times/Bounds.antt =====
-- apps/siem_kowalski/app/main.py, `_average_ms` and `_median_ms`: where they lie.
use Prim.Native.Nat.{◌/◌, ◌%◌}
use native.Mathlib.Nat.{
  lt_of_mul-lt-mul_left, le_of_mul-le-mul_left, mul-zero, mul-suc, mul_comm, div-add-mod, mod-lt,
  le-div_iff_mul-le, div-lt_self,
}
use penguard.Prelude.{
  ℕ, zero, suc, ◌+◌, ◌-◌, ◌*◌, ◌≤◌, ◌<◌, List, [], ◌∷◌, ◌≡◌, refl, some, arith, leb, ltb, eqb,
  length, All, inl, inr, Bool-cases, sorted_by, insert_by,
}
use penguard.Prelude.Sorts.{All-sorted_by}
use penguard.Siem.Metrics.Times.{round_div, sum, average_ms, middle, median_ms, value_at}

abbrev pub Between : ℕ → ℕ → ℕ → Type 0
Between lo hi n = (lo ≤ n) × (n ≤ hi)

round_div-Between :
    (lo hi a b : ℕ) → 0 < b → lo * b ≤ a → a ≤ hi * b → Between lo hi (round_div a b)
unfolding round_div
round_div-Between lo hi a b h l u =
    let q = a / b in
    let r = a % b in
    let parts : b * q + r ≡ a = div-add-mod a b in
    let small : r < b = mod-lt a h in
    let low : lo ≤ q = (le-div_iff_mul-le h).1 l in
    let high : q ≤ hi = le_of_mul-le-mul_left (omega (arith, parts, u, mul_comm hi b)) h in
    let up : 0 < r → q < hi =
      λ some_left. lt_of_mul-lt-mul_left b (omega (arith, some_left, parts, u, mul_comm hi b)) in
    elim (Bool-cases (ltb (r + r) b)) [
      | inl e ↦ rw e (low, high)
      | inr e ↦
          let next : q < hi = up (ground arith) in
          let above : suc q ≤ hi = omega arith in
          let low' : lo ≤ suc q = omega arith in
          elim (Bool-cases (ltb b (r + r))) [
            | inl k ↦ rw (e, k) (low', above)
            | inr k ↦ elim (Bool-cases (eqb (q % 2) 0)) [
              | inl m ↦ rw (e, k, m) (low, high)
              | inr m ↦ rw (e, k, m) (low', above)
            ]
          ]
    ]

sum-Between :
    (lo hi : ℕ) (xs : List ℕ)
    → All (Between lo hi) xs
    → Between (lo * length xs) (hi * length xs) (sum xs)
unfolding sum
sum-Between lo hi [] h = (rw (mul-zero lo) (omega arith), omega arith)
sum-Between lo hi (x ∷ xs) h =
    let rest = sum-Between lo hi xs h.1 in
    (
      rw (mul-suc lo (length xs)) (omega (arith, h.0, rest)),
      rw (mul-suc hi (length xs)) (omega (arith, h.0, rest)),
    )

value_at-Between :
    (lo hi index : ℕ) (xs : List ℕ)
    → All (Between lo hi) xs
    → index < length xs
    → Between lo hi (value_at index xs)
value_at-Between lo hi index [] h k = absurd (omega arith)
value_at-Between lo hi zero (x ∷ xs) h k = h.0
value_at-Between lo hi (suc index) (x ∷ xs) h k =
    value_at-Between lo hi index xs h.1 (omega (arith, k))

middle-Between :
    (lo hi : ℕ) (xs : List ℕ) → All (Between lo hi) xs → 0 < length xs → Between lo hi (middle xs)
unfolding middle
middle-Between lo hi xs h k =
    let mid = length xs / 2 in
    let inside : mid < length xs = div-lt_self k (ground arith) in
    let before : mid - 1 < length xs = omega arith in
    let (low, high) = value_at-Between lo hi mid xs h inside in
    let (low', high') = value_at-Between lo hi (mid - 1) xs h before in
    elim (Bool-cases (eqb (length xs % 2) 1)) [
      | inl e ↦ rw e (low, high)
      | inr e ↦ rw e (
          round_div-Between lo hi (value_at (mid - 1) xs + value_at mid xs) 2 (ground arith)
            (omega arith) (omega arith))
    ]

length-insert_by : (x : ℕ) (xs : List ℕ) → length (insert_by (λ n. n) x xs) ≡ suc (length xs)
length-insert_by x [] = refl
length-insert_by x (y ∷ xs) = elim (Bool-cases (leb x y)) [
  | inl e ↦ rw e
  | inr e ↦ rw e (omega (arith, length-insert_by x xs))
]

-- Of a list with a value, both the average and the median are given, and both lie between any
-- bounds that all the values lie between.
pub average-median-Between :
    (lo hi x : ℕ) (xs : List ℕ)
    → All (Between lo hi) (x ∷ xs)
    → ((average : ℕ) × ((average_ms (x ∷ xs) ≡ some average) × Between lo hi average))
      × ((median : ℕ) × ((median_ms (x ∷ xs) ≡ some median) × Between lo hi median))
unfolding average_ms median_ms
average-median-Between lo hi x xs h =
    let values = x ∷ xs in
    let total = sum-Between lo hi values h in
    let sorted_values = sorted_by (λ n. n) values in
    let given : 0 < length sorted_values =
      omega (arith, length-insert_by x (sorted_by (λ n. n) xs)) in
    (
      (
        _,
        (refl, round_div-Between lo hi (sum values) (length values) (omega arith) total.0 total.1),
      ),
      (
        _,
        (
          refl,
          middle-Between lo hi sorted_values (All-sorted_by (Between lo hi) (λ n. n) values h)
              given,
        ),
      ),
    )
