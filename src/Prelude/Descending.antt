-- ===== src/Prelude/Descending.antt =====
-- Facts on the stable insertion sort with the greatest key first.
use penguard.Prelude.{
  ℕ, suc, ◌≤◌, List, [], ◌∷◌, ◌≡◌, refl, Bool, arith, All, length, insert_in, sort_by, leb, inl,
  inr, Bool-cases,
}

module _ {ℓ} {A : Type ℓ} (key : A → ℕ) where
  -- x may stand before y
  abbrev pub greater : A → A → Bool
  greater x y = leb (key y) (key x)

  length-insert_in : (x : A) (xs : List A) → length (insert_in greater x xs) ≡ suc (length xs)
  length-insert_in x [] = refl
  length-insert_in x (y ∷ xs) = elim (Bool-cases (greater x y)) [
    | inl e ↦ rw e
    | inr e ↦ rw e (omega (arith, length-insert_in x xs))
  ]

  pub length-sort_by : (xs : List A) → length (sort_by greater xs) ≡ length xs
  length-sort_by [] = refl
  length-sort_by (x ∷ xs) =
      omega (arith, length-insert_in x (sort_by greater xs), length-sort_by xs)

  All-insert_in {κ} :
      (P : A → Type κ) (x : A) (xs : List A) → P x → All P xs → All P (insert_in greater x xs)
  All-insert_in P x [] h k = (h, tt)
  All-insert_in P x (y ∷ xs) h k = elim (Bool-cases (greater x y)) [
    | inl e ↦ rw e (h, k)
    | inr e ↦ rw e (k.0, All-insert_in P x xs h k.1)
  ]

  pub All-sort_by {κ} : (P : A → Type κ) (xs : List A) → All P xs → All P (sort_by greater xs)
  All-sort_by P [] h = tt
  All-sort_by P (x ∷ xs) h = All-insert_in P x (sort_by greater xs) h.0 (All-sort_by P xs h.1)

  -- No key is less than a later one.
  abbrev pub Descending : List A → Type 0
  Descending [] = Unit
  Descending (x ∷ xs) = All (λ y. key y ≤ key x) xs × Descending xs

  All-below : (m n : ℕ) (xs : List A) → m ≤ n → All (λ x. key x ≤ m) xs → All (λ x. key x ≤ n) xs
  All-below m n [] h k = tt
  All-below m n (x ∷ xs) h k = (omega (arith, k.0), All-below m n xs h k.1)

  insert_in-Descending : (x : A) (xs : List A) → Descending xs → Descending (insert_in greater x xs)
  insert_in-Descending x [] h = (tt, tt)
  insert_in-Descending x (y ∷ xs) h = elim (Bool-cases (greater x y)) [
    | inl e ↦
        let above : key y ≤ key x = ground arith in
        rw e ((above, All-below (key y) (key x) xs above h.0), h)
    | inr e ↦
        rw e (
          All-insert_in (λ z. key z ≤ key y) x xs (ground arith) h.0,
          insert_in-Descending x xs h.1,
        )
  ]

  pub sort_by-Descending : (xs : List A) → Descending (sort_by greater xs)
  sort_by-Descending [] = tt
  sort_by-Descending (x ∷ xs) = insert_in-Descending x (sort_by greater xs) (sort_by-Descending xs)
