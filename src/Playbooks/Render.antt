-- ===== src/Playbooks/Render.antt =====
-- apps/api/app/playbooks/effects.py, `_render`: templates with `{token}` places.
use Prim.Native.Char.{code}
use text.Mathlib.Text.{starts_with}
use penguard.Prelude.{
  ℕ, String, concat, List, [], ◌∷◌, Bool, not, ◌&&◌, ◌||◌, Option, none, some, ◌==◌, leb, eqb,
  if◌then◌else◌,
}
use penguard.Prelude.Json.{Json, JsonFields, null, obj, end, field, get_field}
use penguard.Prelude.Texts.{split}
use penguard.Playbooks.Documents.{shown, value_at, value_at_path}

-- [a-zA-Z0-9_.]
abbrev is_token_code : ℕ → Bool
is_token_code c =
    (leb b'a' c && leb c b'z')
    || (leb b'A' c && leb c b'Z')
    || (leb b'0' c && leb c b'9')
    || eqb c b'_'
    || eqb c b'.'

-- {"incident": incident, **incident}: an own entry of that name wins
unfoldable pub with_incident : JsonFields → JsonFields → JsonFields
with_incident incident end = field "incident" (obj incident) end
with_incident incident (field key value rest) = field key value (with_incident incident rest)

-- _value_at_path(payload, ".".join(path))
abbrev value_at_joined : List String → JsonFields → Json
value_at_joined [] payload = null
value_at_joined (first ∷ []) payload = value_at_path payload first
value_at_joined (first ∷ second ∷ rest) payload = value_at (first ∷ second ∷ rest) (obj payload)

abbrev fields_of : Option Json → JsonFields
fields_of (some (obj fields)) = fields
fields_of _ = end

abbrev node_value : List String → JsonFields → Json
node_value (_ ∷ node_id ∷ path) outputs =
    value_at_joined path (fields_of (get_field node_id outputs))
node_value _ outputs = null

unfoldable pub token_value : JsonFields → JsonFields → String → Json
token_value incident outputs token =
    if starts_with token "node."
    then node_value (split b'.' token) outputs
    else value_at_path (with_incident incident incident) token

-- re.sub over the template: the second argument is the token that was begun, if one was.
unfoldable pub replaced : (String → String) → Option String → String → String
replaced value none String.[] = ""
replaced value (some token) String.[] = concat "{" token
replaced value none (String.◌∷◌ c rest) =
    let begun = replaced value (some "") rest in
    let plain = replaced value none rest in if eqb (code c) b'{' then begun else String.◌∷◌ c plain
replaced value (some token) (String.◌∷◌ c rest) =
    let longer = replaced value (some (concat token (String.◌∷◌ c ""))) rest in
    let begun = replaced value (some "") rest in
    let plain = replaced value none rest in
    if is_token_code (code c)
    then longer
    else if eqb (code c) b'}' && not (token == "")
    then concat (value token) plain
    else if eqb (code c) b'{'
    then concat "{" (concat token begun)
    else concat "{" (concat token (String.◌∷◌ c plain))

module _ (str_of : Json → String) where
  -- "" if value is None else str(value)
  abbrev shown_value : Json → String
  shown_value null = ""
  shown_value value = shown str_of value

  unfoldable pub render : String → JsonFields → JsonFields → String
  render template incident outputs =
      replaced (λ token. shown_value (token_value incident outputs token)) none template
