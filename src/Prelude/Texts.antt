-- ===== src/Prelude/Texts.antt =====
-- Texts as code points: `text.lower()` and comparison, `text.split(sep)`.
use Prim.Native.Char.{Char, code}
use penguard.Prelude.{
  ℕ, zero, suc, ◌+◌, ◌-◌, String, List, [], ◌∷◌, Bool, true, false, ◌&&◌, leb, eqb, if◌then◌else◌,
}

-- The code points of text.lower(), where these are ASCII.
unfoldable pub lower_codes : String → List ℕ
lower_codes String.[] = []
lower_codes (String.◌∷◌ c s) =
    (if leb b'A' (code c) && leb (code c) b'Z' then code c + 32 else code c) ∷ lower_codes s

unfoldable pub same_codes : List ℕ → List ℕ → Bool
same_codes [] [] = true
same_codes (a ∷ as') (b ∷ bs) = eqb a b && same_codes as' bs
same_codes _ _ = false

abbrev add_first : Char → List String → List String
add_first c [] = String.◌∷◌ c "" ∷ []
add_first c (part ∷ parts) = String.◌∷◌ c part ∷ parts

-- text.split(separator), for one character
unfoldable pub split : ℕ → String → List String
split separator String.[] = "" ∷ []
split separator (String.◌∷◌ c s) =
    let rest = split separator s in if eqb (code c) separator then "" ∷ rest else add_first c rest

-- The small letters, by their place.
abbrev letter_at : ℕ → List Char → Char → Char
letter_at index [] other = other
letter_at zero (letter ∷ letters) other = letter
letter_at (suc index) (letter ∷ letters) other = letter_at index letters other

abbrev small : List Char
small =
    "a" ∷ "b" ∷ "c" ∷ "d" ∷ "e" ∷ "f" ∷ "g" ∷ "h" ∷ "i" ∷ "j" ∷ "k" ∷ "l" ∷ "m" ∷ "n" ∷ "o" ∷ "p"
    ∷ "q" ∷ "r" ∷ "s" ∷ "t" ∷ "u" ∷ "v" ∷ "w" ∷ "x" ∷ "y" ∷ "z" ∷ []

-- text.lower(), for ASCII letters
unfoldable pub lower : String → String
lower String.[] = ""
lower (String.◌∷◌ c s) =
    String.◌∷◌
      (if leb b'A' (code c) && leb (code c) b'Z' then letter_at (code c - b'A') small c else c)
      (lower s)
