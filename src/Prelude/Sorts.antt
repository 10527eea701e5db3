-- ===== src/Prelude/Sorts.antt =====
-- Facts on the insertion sort by a numeric key.
use native.Mathlib.Nat.{le_refl}
use penguard.Prelude.{
  ℕ, ◌≤◌, ◌<◌, ◌⊎◌, ◌++◌, List, [], ◌∷◌, ◌≡◌, refl, sym, ap, Bool, true, arith, All, filter,
  insert_by, sorted_by, leb, inl, inr, Bool-cases,
}

module _ {ℓ} {A : Type ℓ} where
  All-insert_by {κ} :
      (P : A → Type κ) (key : A → ℕ) (x : A) (ys : List A)
      → P x
      → All P ys
      → All P (insert_by key x ys)
  All-insert_by P key x [] h k = (h, tt)
  All-insert_by P key x (y ∷ ys) h k = elim (Bool-cases (leb (key x) (key y))) [
    | inl e ↦ rw e (h, k)
    | inr e ↦ rw e (k.0, All-insert_by P key x ys h k.1)
  ]

  pub All-sorted_by {κ} :
      (P : A → Type κ) (key : A → ℕ) (xs : List A) → All P xs → All P (sorted_by key xs)
  All-sorted_by P key [] h = tt
  All-sorted_by P key (x ∷ xs) h =
      All-insert_by P key x (sorted_by key xs) h.0 (All-sorted_by P key xs h.1)

  All-weaken :
      (key : A → ℕ) (m n : ℕ) (xs : List A)
      → m ≤ n
      → All (λ x. n ≤ key x) xs
      → All (λ x. m ≤ key x) xs
  All-weaken key m n [] h k = tt
  All-weaken key m n (x ∷ xs) h k = (omega (arith, k.0), All-weaken key m n xs h k.1)

  insert_by-cons : (key : A → ℕ) (x : A) (ys : List A) → insert_by key x ys ≡ [] → ⊥
  insert_by-cons key x [] h = cc
  insert_by-cons key x (y ∷ ys) h = elim (Bool-cases (leb (key x) (key y))) [
    | inl e ↦ cc (rw e at h)
    | inr e ↦ cc (rw e at h)
  ]

  abbrev Ordered : (A → ℕ) → List A → Type 0
  Ordered key [] = Unit
  Ordered key (x ∷ xs) = All (λ w. key x ≤ key w) xs × Ordered key xs

  insert_by-Ordered :
      (key : A → ℕ) (x : A) (ys : List A) → Ordered key ys → Ordered key (insert_by key x ys)
  insert_by-Ordered key x [] h = (tt, tt)
  insert_by-Ordered key x (y ∷ ys) h = elim (Bool-cases (leb (key x) (key y))) [
    | inl e ↦
        let below : key x ≤ key y = ground arith in
        rw e ((below, All-weaken key (key x) (key y) ys below h.0), h)
    | inr e ↦ rw e (
      All-insert_by (λ w. key y ≤ key w) key x ys (ground arith) h.0,
      insert_by-Ordered key x ys h.1,
    )
  ]

  sorted_by-Ordered : (key : A → ℕ) (xs : List A) → Ordered key (sorted_by key xs)
  sorted_by-Ordered key [] = tt
  sorted_by-Ordered key (x ∷ xs) =
      insert_by-Ordered key x (sorted_by key xs) (sorted_by-Ordered key xs)

  insert_by-All {κ} :
      (P : A → Type κ) (key : A → ℕ) (x : A) (ys : List A)
      → All P (insert_by key x ys)
      → P x × All P ys
  insert_by-All P key x [] h = h
  insert_by-All P key x (y ∷ ys) h = elim (Bool-cases (leb (key x) (key y))) [
    | inl e ↦ rw e at h
    | inr e ↦
        let split : P y × All P (insert_by key x ys) = rw e at h in
        let (px, rest) = insert_by-All P key x ys split.1 in (px, (split.0, rest))
  ]

  sorted_by-All {κ} :
      (P : A → Type κ) (key : A → ℕ) (xs : List A) → All P (sorted_by key xs) → All P xs
  sorted_by-All P key [] h = tt
  sorted_by-All P key (x ∷ xs) h =
      let (px, rest) = insert_by-All P key x (sorted_by key xs) h in
      (px, sorted_by-All P key xs rest)

  -- The first of a sorted list has the smallest key.
  pub sorted_by-first :
      (key : A → ℕ) (xs : List A) {y : A} {ys : List A}
      → sorted_by key xs ≡ y ∷ ys
      → All (λ x. key y ≤ key x) xs
  sorted_by-first key xs {y} {ys} h =
      let ordered : Ordered key (y ∷ ys) = rw h at (sorted_by-Ordered key xs) in
      sorted_by-All (λ x. key y ≤ key x) key xs (rw h (le_refl (key y), ordered.0))

  -- Only the empty list sorts to the empty list.
  pub sorted_by-nil : (key : A → ℕ) (xs : List A) → sorted_by key xs ≡ [] → xs ≡ []
  sorted_by-nil key [] h = refl
  sorted_by-nil key (x ∷ xs) h = absurd (insert_by-cons key x (sorted_by key xs) h)

  insert_by-head :
      (key : A → ℕ) (x : A) (zs : List A) {y : A} {ys : List A}
      → insert_by key x zs ≡ y ∷ ys
      → (y ≡ x) ⊎ ((rest : List A) × (zs ≡ y ∷ rest) × (key y < key x))
  insert_by-head key x [] {y} h = let same : y ≡ x = cc h in inl same
  insert_by-head key x (z ∷ zs) {y} h = elim (Bool-cases (leb (key x) (key z))) [
    | inl e ↦ let here : x ∷ z ∷ zs ≡ y ∷ _ = rw e at h in let same : y ≡ x = cc here in inl same
    | inr e ↦
        let here : z ∷ insert_by key x zs ≡ y ∷ _ = rw e at h in
        let same : z ≡ y = cc here in inr (zs, ap (λ w. w ∷ zs) same, ground (arith, e, same))
  ]

  -- Where the first of a sorted and filtered list stands in the list: of the elements that pass, no
  -- earlier one has a key as small.
  pub record FirstOf (key : A → ℕ) (p : A → Bool) (xs : List A) (y : A) : Type ℓ where
    pub before : List A
    pub after : List A
    pub split : xs ≡ before ++ y ∷ after
    pub passes : p y ≡ true
    pub first : All (λ x. key y < key x) (filter p before)

  pub sorted_by-FirstOf :
      (key : A → ℕ) (p : A → Bool) (xs : List A) {y : A} {ys : List A}
      → sorted_by key (filter p xs) ≡ y ∷ ys
      → FirstOf key p xs y
  sorted_by-FirstOf key p [] h = absurd (cc h)
  sorted_by-FirstOf key p (x ∷ xs) {y} h = elim (Bool-cases (p x)) [
    | inr e ↦
        let f : FirstOf key p xs y = sorted_by-FirstOf key p xs (rw e at h) in
        record {
          before = x ∷ f.before;
          after = f.after;
          split = ap (λ w. x ∷ w) f.split;
          passes = f.passes;
          first = rw e f.first;
        }
    | inl e ↦ elim (insert_by-head key x (sorted_by key (filter p xs)) (rw e at h)) [
      | inl same ↦ record {
        before = [];
        after = xs;
        split = ap (λ w. w ∷ xs) (sym same);
        passes = rw same e;
        first = tt;
      }
      | inr (rest, later, less) ↦
          let f : FirstOf key p xs y = sorted_by-FirstOf key p xs later in
          record {
            before = x ∷ f.before;
            after = f.after;
            split = ap (λ w. x ∷ w) f.split;
            passes = f.passes;
            first = rw e (less, f.first);
          }
    ]
  ]

  -- What a filter keeps passes its test.
  pub All-filter : (p : A → Bool) (xs : List A) → All (λ x. p x ≡ true) (filter p xs)
  All-filter p [] = tt
  All-filter p (x ∷ xs) = elim (Bool-cases (p x)) [
    | inl e ↦ rw e (e, All-filter p xs)
    | inr e ↦ rw e (All-filter p xs)
  ]
