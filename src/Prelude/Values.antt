-- ===== src/Prelude/Values.antt =====
-- Python's view of JSON values: truth, `d.get(k)`, equality, `{**d, k: v}`, and the numbers that a
-- value is read as. What `str` gives for a value that is no text, and `float` for a text, are
-- arguments; `float` is given on texts that stand for integers, and -inf is `none`.
use penguard.Prelude.{
  ℕ, suc, String, List, [], ◌∷◌, Bool, true, false, not, ◌&&◌, ◌||◌, Option, none, some, ◌==◌, eqb,
  leb, ◌≡◌, arith, eq_iff, eq_refl, String-cases, inl, inr, if◌then◌else◌,
}
use penguard.Prelude.Json.{
  ℤ, pos, negsuc, Json, JsonItems, JsonFields, null, boolean, num, str, arr, obj, nil, cons, end,
  field, get_field,
}

pub record Builtins : Type 0 where
  pub str_of : Json → String
  pub float_of : String → Option ℤ

-- bool(value)
unfoldable pub truthy : Json → Bool
truthy null = false
truthy (boolean b) = b
truthy (num (ℤ.pos n)) = not (eqb n 0)
truthy (num (ℤ.negsuc n)) = true
truthy (str text) = not (text == "")
truthy (arr nil) = false
truthy (arr (cons _ _)) = true
truthy (obj end) = false
truthy (obj (field _ _ _)) = true

-- payload.get(key): a key that is missing reads as None
unfoldable pub value_of : String → JsonFields → Json
value_of key fields = elim (get_field key fields) [ none ↦ null | some value ↦ value ]

-- value or default
abbrev pub or_default : Json → Json → Json
or_default value default = if truthy value then value else default

-- str(value)
abbrev pub text_of : Builtins → Json → String
text_of py (str text) = text
text_of py value = py.str_of value

-- str(value or "")
abbrev pub text_or_empty : Builtins → Json → String
text_or_empty py value = if truthy value then text_of py value else ""

abbrev pub eqℤ : ℤ → ℤ → Bool
eqℤ (pos a) (pos b) = eqb a b
eqℤ (negsuc a) (negsuc b) = eqb a b
eqℤ _ _ = false

abbrev pub leℤ : ℤ → ℤ → Bool
leℤ (pos a) (pos b) = leb a b
leℤ (pos a) (negsuc b) = false
leℤ (negsuc a) (pos b) = true
leℤ (negsuc a) (negsuc b) = leb b a

abbrev as_int : Bool → ℤ
as_int true = pos 1
as_int false = pos 0

abbrev pub size : JsonFields → ℕ
size end = 0
size (field _ _ rest) = suc (size rest)

abbrev pub same_value : Option Json → (Json → Bool) → Bool
same_value none same = false
same_value (some value) same = same value

-- left == right: booleans are numbers, and the order of an object's entries does not count.
unfoldable mutual
  pub json_eq : Json → Json → Bool
  json_eq null null = true
  json_eq null _ = false
  json_eq (boolean a) (boolean b) = eqℤ (as_int a) (as_int b)
  json_eq (boolean a) (num n) = eqℤ (as_int a) n
  json_eq (boolean a) _ = false
  json_eq (num m) (num n) = eqℤ m n
  json_eq (num m) (boolean b) = eqℤ m (as_int b)
  json_eq (num m) _ = false
  json_eq (str s) (str t) = s == t
  json_eq (str s) _ = false
  json_eq (arr xs) (arr ys) = items_eq xs ys
  json_eq (arr xs) _ = false
  json_eq (obj a) (obj b) = eqb (size a) (size b) && fields_in a b
  json_eq (obj a) _ = false

  pub items_eq : JsonItems → JsonItems → Bool
  items_eq nil nil = true
  items_eq nil (cons _ _) = false
  items_eq (cons x xs) nil = false
  items_eq (cons x xs) (cons y ys) = json_eq x y && items_eq xs ys

  pub fields_in : JsonFields → JsonFields → Bool
  fields_in end other = true
  fields_in (field key value rest) other =
      same_value (get_field key other) (json_eq value) && fields_in rest other

-- {**fields, key: value}
unfoldable pub set_field : String → Json → JsonFields → JsonFields
set_field key value end = field key value end
set_field key value (field k v rest) =
    let later = set_field key value rest in if k == key then field k value rest else field k v later

-- expected in items
abbrev pub item_in : Json → JsonItems → Bool
item_in expected nil = false
item_in expected (cons item items) = json_eq item expected || item_in expected items

abbrev pub text_items : List String → JsonItems
text_items [] = nil
text_items (text ∷ texts) = cons (str text) (text_items texts)

abbrev pub int_items : List ℤ → JsonItems
int_items [] = nil
int_items (n ∷ ns) = cons (num n) (int_items ns)

-- What a key holds after a key is set.
pub value_of-set_field :
    (j k : String) (value : Json) (fields : JsonFields)
    → value_of j (set_field k value fields) ≡ (if k == j then value else value_of j fields)
unfolding value_of set_field get_field
value_of-set_field j k value end = ground arith
value_of-set_field j k value (field name old rest) = elim (String-cases name k) [
  | inl e ↦ rw (e, eq_refl) (ground (arith, eq_iff k j))
  | inr e ↦
      rw e (
        ground (arith, value_of-set_field j k value rest, eq_iff k j, eq_iff name j, eq_iff name k))
]
