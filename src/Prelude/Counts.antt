-- ===== src/Prelude/Counts.antt =====
-- How often a text occurs in a list: lists of names compared up to order.
use Prim.Native.Nat.{ℕ, suc, ◌+◌, ◌≤◌, ◌<◌}
use Prim.Native.String.{String}
use mathlib.Core.Path.{◌≡◌, refl, ap}
use mathlib.Core.Logic.{inl, inr}
use mathlib.Core.Bool.{Bool, true, false}
use mathlib.Core.List.{List, [], ◌∷◌, ◌++◌}
use native.Mathlib.Omega.{arith}
use text.Mathlib.Text.{◌==◌}
use text.Mathlib.TextPositions.{eq_refl}
use penguard.Prelude.Tests.{if◌then◌else◌, leb, Bool-cases, String-cases}
use penguard.Prelude.Lists.{length, insert_by, sorted_by, contains, filter}

abbrev pub count : String → List String → ℕ
count x [] = 0
count x (y ∷ ys) = (if y == x then 1 else 0) + count x ys

pub count-append : (x : String) (xs ys : List String) → count x (xs ++ ys) ≡ count x xs + count x ys
count-append x [] ys = omega arith
count-append x (z ∷ xs) ys = omega (arith, count-append x xs ys)

count-insert_by :
    (x : String) (key : String → ℕ) (y : String) (ys : List String)
    → count x (insert_by key y ys) ≡ (if y == x then 1 else 0) + count x ys
count-insert_by x key y [] = refl
count-insert_by x key y (z ∷ ys) = elim (Bool-cases (leb (key y) (key z))) [
  | inl e ↦ rw e
  | inr e ↦ rw e (omega (arith, count-insert_by x key y ys))
]

-- Sorting keeps how often each text occurs.
pub count-sorted_by :
    (x : String) (key : String → ℕ) (ys : List String) → count x (sorted_by key ys) ≡ count x ys
count-sorted_by x key [] = refl
count-sorted_by x key (y ∷ ys) =
    omega (arith, count-insert_by x key y (sorted_by key ys), count-sorted_by x key ys)

-- A list without the first occurrence of `x`.
without : String → List String → List String
without x [] = []
without x (y ∷ ys) = let rest = without x ys in if y == x then ys else y ∷ rest

count-without :
    (x z : String) (ys : List String)
    → 0 < count x ys
    → count z ys ≡ (if x == z then 1 else 0) + count z (without x ys)
unfolding without
count-without x z [] h = absurd (omega arith)
count-without x z (y ∷ ys) h = elim (String-cases y x) [
  | inl e ↦ rw (e, eq_refl)
  | inr e ↦
      let later : 0 < count x ys = ground arith in rw e (omega (arith, count-without x z ys later))
]

length-without :
    (x : String) (ys : List String) → 0 < count x ys → length ys ≡ suc (length (without x ys))
unfolding without
length-without x [] h = absurd (omega arith)
length-without x (y ∷ ys) h = elim (Bool-cases (y == x)) [
  | inl e ↦ rw e
  | inr e ↦ let later : 0 < count x ys = ground arith in rw e (ap suc (length-without x ys later))
]

-- What is left after one occurrence of `x` is dropped on both sides.
count-le-without :
    (x : String) (xs ys : List String)
    → ((z : String) → count z (x ∷ xs) ≤ count z ys)
    → (z : String) → count z xs ≤ count z (without x ys)
count-le-without x xs ys h z =
    let here : 0 < count x ys = ground (arith, h x, eq_refl x) in
    omega (arith, h z, count-without x z ys here)

-- What occurs at most as often in `xs` as in `ys`, everywhere, makes `xs` no longer.
pub length_le_of_count :
    (xs ys : List String) → ((x : String) → count x xs ≤ count x ys) → length xs ≤ length ys
length_le_of_count [] ys h = omega arith
length_le_of_count (x ∷ xs) ys h =
    let here : 0 < count x ys = ground (arith, h x, eq_refl x) in
    omega (
      arith,
      length-without x ys here,
      length_le_of_count xs (without x ys) (count-le-without x xs ys h),
    )

-- If it is no shorter either, then everything occurs equally often in both.
pub count_eq_of_length :
    (xs ys : List String)
    → ((x : String) → count x xs ≤ count x ys)
    → length ys ≤ length xs
    → (z : String) → count z xs ≡ count z ys
count_eq_of_length [] [] h l z = refl
count_eq_of_length [] (y ∷ ys) h l z = absurd (omega arith)
count_eq_of_length (x ∷ xs) ys h l z =
    let here : 0 < count x ys = ground (arith, h x, eq_refl x) in
    let fewer : length (without x ys) ≤ length xs = omega (arith, length-without x ys here) in
    omega (
      arith,
      count-without x z ys here,
      count_eq_of_length xs (without x ys) (count-le-without x xs ys h) fewer z,
    )

-- `x in xs` holds exactly of what occurs.
contains-eq-false : (x : String) (xs : List String) → contains x xs ≡ false → count x xs ≡ 0
contains-eq-false x [] h = refl
contains-eq-false x (y ∷ ys) h = ground (arith, contains-eq-false x ys)

pub contains-eq-true : (x : String) (xs : List String) → contains x xs ≡ true → 0 < count x xs
contains-eq-true x [] h = cc
contains-eq-true x (y ∷ ys) h = ground (arith, contains-eq-true x ys)

pub contains_of_absent : (x : String) (xs : List String) → count x xs ≡ 0 → contains x xs ≡ false
contains_of_absent x xs h = ground (arith, contains-eq-true x xs)

pub contains_of_present : (x : String) (xs : List String) → 0 < count x xs → contains x xs ≡ true
contains_of_present x xs h = ground (arith, contains-eq-false x xs)

-- What a filter keeps, by a test on the text.
pub count-filter :
    (x : String) (p : String → Bool) (xs : List String)
    → count x (filter p xs) ≡ (if p x then count x xs else 0)
count-filter x p [] = ground arith
count-filter x p (y ∷ xs) = elim (String-cases y x) [
  | inl e ↦ rw e (ground (arith, count-filter x p xs, eq_refl x))
  | inr e ↦ ground (arith, e, count-filter x p xs)
]
