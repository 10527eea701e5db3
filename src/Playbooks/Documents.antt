-- ===== src/Playbooks/Documents.antt =====
-- apps/api/app/playbooks/effects.py: the documents that it reads. A playbook comes from the playbook
-- service as JSON: ids, types and conditions are texts where they are there at all, and only the
-- entries of `nodes` and `edges` that are objects count. `str_of` is Python's `str` on a value that
-- is no text.
use penguard.Prelude.{
  ℕ, String, List, [], ◌∷◌, Bool, true, false, Option, none, some, ◌==◌, if◌then◌else◌,
}
use penguard.Prelude.Json.{Json, JsonItems, JsonFields, null, str, arr, obj, nil, cons, end}
use penguard.Prelude.Values.{truthy, value_of}
use penguard.Prelude.Texts.{lower_codes, same_codes, split}

pub record Node : Type 0 where
  pub id : Option String
  pub type : Option String
  pub config : Option JsonFields

pub record Edge : Type 0 where
  pub from_node : Option String
  pub to_node : Option String
  pub condition : Option String

pub record Document : Type 0 where
  pub nodes : List Node
  pub edges : List Edge

-- str(value), for a text that may be missing
abbrev pub str_or_none : Option String → String
str_or_none none = "None"
str_or_none (some text) = text

-- str(value or ""), for a text that may be missing
abbrev pub text_of : Option String → String
text_of none = ""
text_of (some text) = text

-- _config
abbrev pub config_of : Node → JsonFields
config_of node = elim node.config [ none ↦ end | some fields ↦ fields ]

-- The loop of `_value_at_path` over the segments.
unfoldable pub value_at : List String → Json → Json
value_at [] current = current
value_at (segment ∷ segments) (obj fields) = value_at segments (value_of segment fields)
value_at (segment ∷ segments) _ = null

unfoldable pub value_at_path : JsonFields → String → Json
value_at_path payload path = if path == "" then null else value_at (split b'.' path) (obj payload)

module _ (str_of : Json → String) where
  -- str(value)
  abbrev pub shown : Json → String
  shown (str text) = text
  shown value = str_of value

  -- str(value or "")
  abbrev pub shown_or_empty : Json → String
  shown_or_empty value = if truthy value then shown value else ""

  unfoldable pub any_same : List ℕ → JsonItems → Bool
  any_same severity nil = false
  any_same severity (cons item items) =
      if same_codes (lower_codes (shown item)) severity then true else any_same severity items

  abbrev severity_allowed : Json → String → Bool
  severity_allowed (arr allowed) severity = any_same (lower_codes severity) allowed
  severity_allowed _ severity = true

  unfoldable pub severity_matches : JsonFields → JsonFields → Bool
  severity_matches config incident =
      severity_allowed (value_of "severity" config) (shown_or_empty (value_of "severity" incident))
