-- ===== src/Prelude/Dicts.antt =====
-- A Python dictionary with text keys, as the list of its entries in the order of insertion.
use penguard.Prelude.{
  String, List, [], ◌∷◌, ◌≡◌, refl, subst, Option, none, some, ◌==◌, eq_iff, eq_refl, arith, All,
  inl, inr, String-cases, if◌then◌else◌,
}

module _ {A : Type 0} where
  -- d.get(key)
  unfoldable pub dict_get : String → List (String × A) → Option A
  dict_get key [] = none
  dict_get key ((k, value) ∷ rest) =
      let later = dict_get key rest in if k == key then some value else later

  -- d[key] = value
  unfoldable pub dict_set : String → A → List (String × A) → List (String × A)
  dict_set key value [] = (key, value) ∷ []
  dict_set key value ((k, old) ∷ rest) =
      let later = dict_set key value rest in
      if k == key then (k, value) ∷ rest else (k, old) ∷ later

  -- What is read under a key is one of the entries.
  pub dict_get-All :
      (P : String → A → Type 0) (key : String) (entries : List (String × A)) {value : A}
      → All (λ (entry : String × A). P entry.0 entry.1) entries
      → dict_get key entries ≡ some value
      → P key value
  unfolding dict_get
  dict_get-All P key [] h k = absurd (cc k)
  dict_get-All P key ((j, old) ∷ rest) {value} h k = elim (String-cases j key) [
    | inl e ↦
        let found : some old ≡ some value = rw (e, eq_refl) at k in
        subst (λ x. P x value) e (subst (P j) (cc found) h.0)
    | inr e ↦ dict_get-All P key rest h.1 (rw e at k)
  ]

  -- Writing keeps what holds of all entries, where it holds of the new one.
  pub dict_set-All :
      (P : String → A → Type 0) (key : String) (value : A) (entries : List (String × A))
      → P key value
      → All (λ (entry : String × A). P entry.0 entry.1) entries
      → All (λ (entry : String × A). P entry.0 entry.1) (dict_set key value entries)
  unfolding dict_set
  dict_set-All P key value [] p h = (p, tt)
  dict_set-All P key value ((j, old) ∷ rest) p h = elim (String-cases j key) [
    | inl e ↦ rw (e, eq_refl) (p, h.1)
    | inr e ↦ rw e (h.0, dict_set-All P key value rest p h.1)
  ]

  -- What is read after a write.
  pub dict_get-dict_set :
      (j k : String) (value : A) (entries : List (String × A))
      → dict_get j (dict_set k value entries) ≡ (if k == j then some value else dict_get j entries)
  unfolding dict_get dict_set
  dict_get-dict_set j k value [] = refl
  dict_get-dict_set j k value ((name, old) ∷ rest) = elim (String-cases name k) [
    | inl e ↦ rw (e, eq_refl) (ground (arith, eq_iff k j))
    | inr e ↦
        rw e (
          ground
            (arith, dict_get-dict_set j k value rest, eq_iff k j, eq_iff name j, eq_iff name k))
  ]
