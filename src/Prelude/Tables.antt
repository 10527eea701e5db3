-- ===== src/Prelude/Tables.antt =====
-- A database table as the list of its rows in the order of `row_id`, with the statements that the
-- stores execute: select by key, update, delete and insert under a unique key.
use Prim.Native.Nat.{◌≤◌}
use Prim.Native.String.{String}
use mathlib.Core.Path.{◌≡◌, refl}
use mathlib.Core.Bool.{Bool, true, false}
use mathlib.Core.Option
use mathlib.Core.Option.{Option, none, some}
use mathlib.Core.List.{List, [], ◌∷◌, ◌++◌, map}
use native.Mathlib.Omega.{arith}
use text.Mathlib.Text.{◌==◌}
use text.Mathlib.TextEquality.{eq_iff}
use text.Mathlib.TextPositions.{eq_refl}
use penguard.Prelude.Tests.{if◌then◌else◌}
use penguard.Prelude.Lists.{any}
use penguard.Prelude.Counts.{count}

abbrev pub is_some {ℓ} : {A : Type ℓ} → Option A → Bool
is_some none = false
is_some (some _) = true

module _ {R : Type 0} (key : R → String) where
  -- select ... where key = k, first row
  unfoldable pub select : String → List R → Option R
  select k [] = none
  select k (r ∷ t) = if key r == k then some r else select k t

  -- update ... where key = k
  unfoldable pub update : String → (R → R) → List R → List R
  update k f [] = []
  update k f (r ∷ t) = (if key r == k then f r else r) ∷ update k f t

  -- delete ... where key = k
  unfoldable pub delete : String → List R → List R
  delete k [] = []
  delete k (r ∷ t) = let rest = delete k t in if key r == k then rest else r ∷ rest

  unfoldable pub taken : String → List R → Bool
  taken k = any (λ r. key r == k)

  -- insert; `none` is the integrity error of the unique key
  unfoldable pub insert : R → List R → Option (List R)
  unfolding taken
  insert r t = if taken (key r) t then none else some (t ++ r ∷ [])

  -- No two rows have one key.
  abbrev pub IsUnique : List R → Type 0
  IsUnique t = (k : String) → count k (map key t) ≤ 1

  update-absent : (k : String) (f : R → R) (t : List R) → count k (map key t) ≤ 0 → update k f t ≡ t
  unfolding update
  update-absent k f [] h = refl
  update-absent k f (r ∷ t) h = ground (arith, h, update-absent k f t)

  count-here :
      (before : List R) (row : R) (after : List R)
      → 1 ≤ count (key row) (map key (before ++ row ∷ after))
  count-here [] row after = ground (arith, eq_refl (key row))
  count-here (r ∷ before) row after = ground (arith, count-here before row after)

  -- The update of a row by its unique key writes that row alone.
  pub update-split :
      (f : R → R) (before : List R) (row : R) (after : List R)
      → count (key row) (map key (before ++ row ∷ after)) ≤ 1
      → update (key row) f (before ++ row ∷ after) ≡ before ++ f row ∷ after
  unfolding update
  update-split f [] row after h =
      ground (arith, h, eq_refl (key row), update-absent (key row) f after)
  update-split f (r ∷ before) row after h =
      ground (arith, h, count-here before row after, update-split f before row after)

  pub select-delete :
      (k j : String) (t : List R) → select j (delete k t) ≡ (if k == j then none else select j t)
  unfolding select delete
  select-delete k j [] = ground arith
  select-delete k j (r ∷ t) =
      ground (arith, select-delete k j t, eq_iff k j, eq_iff (key r) k, eq_iff (key r) j)

  pub select-update :
      (k j : String) (f : R → R) (t : List R)
      → ((r : R) → key (f r) ≡ key r)
      → select j (update k f t) ≡ (if k == j then Option.map f (select j t) else select j t)
  unfolding select update
  select-update k j f [] keep = ground arith
  select-update k j f (r ∷ t) keep =
      ground
        (arith, select-update k j f t keep, keep r, eq_iff k j, eq_iff (key r) k, eq_iff (key r) j)

  pub select-append :
      (j : String) (r : R) (t : List R)
      → select j (t ++ r ∷ [])
        ≡ elim (select j t) [ some x ↦ some x | none ↦ if key r == j then some r else none ]
  unfolding select
  select-append j r [] = ground arith
  select-append j r (x ∷ t) = ground (arith, select-append j r t)

  pub taken-select : (k : String) (t : List R) → taken k t ≡ is_some (select k t)
  unfolding select taken
  taken-select k [] = refl
  taken-select k (r ∷ t) = ground (arith, taken-select k t)

  -- An insert succeeds exactly if the key is free.
  pub insert-none : (r : R) (t : List R) → insert r t ≡ none → is_some (select (key r) t) ≡ true
  unfolding insert
  insert-none r t h = ground (arith, h, taken-select (key r) t)

  -- A row that was inserted is found under its key, and every other key as before.
  pub select-insert :
      (j : String) (r : R) (t : List R) {t' : List R}
      → insert r t ≡ some t'
      → select j t' ≡ (if key r == j then some r else select j t)
  unfolding insert
  select-insert j r t {t'} h =
      ground (arith, h, taken-select (key r) t, select-append j r t, eq_iff (key r) j)

  -- What an insert that succeeds has done.
  pub insert-some :
      (r : R) (t : List R) {t' : List R}
      → insert r t ≡ some t'
      → (t' ≡ t ++ r ∷ []) × (select (key r) t ≡ none)
  unfolding insert
  insert-some r t h = ground (arith, h, taken-select (key r) t)

-- A select by one key after an update by another.
module _ {R : Type 0} (key by : R → String) where
  pub select-update_by :
      (k j : String) (f : R → R) (t : List R)
      → ((r : R) → key (f r) ≡ key r)
      → select key j (update by k f t)
        ≡ Option.map (λ r. if by r == k then f r else r) (select key j t)
  unfolding select update
  select-update_by k j f [] keep = refl
  select-update_by k j f (r ∷ t) keep = ground (arith, select-update_by k j f t keep, keep r)
