-- ===== src/Policies/Texts.antt =====
-- Python's `c in text`, `text.split(c, 1)[0]`, `text.rsplit(c, 1)[-1]` and `text[:n]`, for a
-- character's code.
use Prim.Native.Char.{code}
use penguard.Prelude.{ℕ, zero, suc, String, Bool, false, ◌||◌, eqb, if◌then◌else◌}

unfoldable pub has_char : ℕ → String → Bool
has_char c String.[] = false
has_char c (String.◌∷◌ d s) = eqb (code d) c || has_char c s

-- What stands before the first `c`; all, where there is none.
unfoldable pub first_part : ℕ → String → String
first_part c String.[] = ""
first_part c (String.◌∷◌ d s) =
    let rest = first_part c s in if eqb (code d) c then "" else String.◌∷◌ d rest

-- What stands behind the last `c`; all, where there is none.
unfoldable pub last_part : ℕ → String → String
last_part c String.[] = ""
last_part c (String.◌∷◌ d s) =
    let rest = last_part c s in
    if has_char c s then rest else if eqb (code d) c then s else String.◌∷◌ d s

unfoldable pub prefix : ℕ → String → String
prefix zero s = ""
prefix (suc n) String.[] = ""
prefix (suc n) (String.◌∷◌ d s) = String.◌∷◌ d (prefix n s)
