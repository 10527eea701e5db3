-- ===== src/Triage/Read.antt =====
-- apps/api/app/soc/triage/engine.py: what the engine reads of an incident. Python's `str.strip` and
-- `int` on a text are arguments.
use penguard.Prelude.{
  ℕ, suc, String, List, [], ◌∷◌, Bool, true, false, not, ◌&&◌, ◌||◌, Option, none, some, ◌==◌,
  contains, if◌then◌else◌,
}
use penguard.Prelude.Json.{
  ℤ, pos, Json, JsonItems, JsonFields, boolean, num, str, arr, obj, nil, cons, end,
}
use penguard.Prelude.Texts.{lower}
use penguard.Prelude.Values.{Builtins, value_of, truthy, text_or_empty, leℤ, item_in}
use penguard.Triage.Models.{
  Family, network_scan, denied_burst, bruteforce, suspicious_connection, privileged_logon,
  resource_pressure, manual, family_text, Confidence,
}

pub record Texts : Type 0 where
  pub builtins : Builtins
  pub strip : String → String
  pub int_of : String → Option ℤ

-- value if isinstance(value, dict) else {}
abbrev pub dict_or_empty : Json → JsonFields
dict_or_empty (obj fields) = fields
dict_or_empty _ = end

unfoldable pub string_or_none : Json → Option String
string_or_none (str text) = if text == "" then none else some text
string_or_none _ = none

unfoldable pub int_or_none : Texts → Json → Option ℤ
int_or_none py (num n) = some n
int_or_none py (str text) = py.int_of text
int_or_none py _ = none

-- The text that a value gives, "" where it gives none.
abbrev own_string : Texts → Json → String
own_string py (str text) = py.strip text
own_string py (num n) = py.builtins.str_of (num n)
own_string py _ = ""

-- _first_string, for two values; the text of a number is not empty.
unfoldable pub first_string : Texts → Json → Json → String
first_string py first second =
    if own_string py first == "" then own_string py second else own_string py first

-- _first_string(attributes.get(key), entities.get(key))
abbrev pub named : Texts → String → JsonFields → JsonFields → String
named py key attributes entities = first_string py (value_of key attributes) (value_of key entities)

-- bool(text)
abbrev pub is_set : String → Bool
is_set text = not (text == "")

abbrev is_port : Json → Bool
is_port (num _) = true
is_port (boolean _) = true
is_port (str _) = true
is_port _ = false

-- len({port for port in ports if ...}), by the last occurrence of each
unfoldable pub distinct_ports : JsonItems → ℕ
distinct_ports nil = 0
distinct_ports (cons port ports) =
    let rest = distinct_ports ports in
    if is_port port && not (item_in port ports) then suc rest else rest

abbrev ports_of : Json → ℤ
ports_of (arr ports) = pos (distinct_ports ports)
ports_of _ = pos 0

unfoldable pub unique_port_count : Texts → JsonFields → ℤ
unfolding distinct_ports
unique_port_count py attributes =
    elim (int_or_none py (value_of "uniqueDestinationPortCount" attributes)) [
      | some count ↦ count
      | none ↦ ports_of (value_of "destinationPorts" attributes)
    ]

abbrev observed_count : Texts → Json → Option ℤ
observed_count py (obj detection) = int_or_none py (value_of "observedCount" detection)
observed_count py _ = none

abbrev or_zero : Option ℤ → ℤ
or_zero none = pos 0
or_zero (some n) = n

unfoldable pub failed_login_count : Texts → JsonFields → ℤ
failed_login_count py attributes = elim (int_or_none py (value_of "count" attributes)) [
  | some count ↦ count
  | none ↦ or_zero (observed_count py (value_of "detection" attributes))
]

-- port_count >= SCAN_PORT_THRESHOLD
abbrev pub many_ports : Texts → JsonFields → Bool
many_ports py attributes = leℤ (pos 20) (unique_port_count py attributes)

-- _failed_login_count(attributes) >= BRUTE_FORCE_THRESHOLD
abbrev pub many_logins : Texts → JsonFields → Bool
many_logins py attributes = leℤ (pos 3) (failed_login_count py attributes)

abbrev pub high_or_medium : Bool → Confidence
high_or_medium true = Confidence.high
high_or_medium false = Confidence.medium

unfoldable pub confidence : Texts → Family → JsonFields → Confidence
confidence py network_scan attributes = high_or_medium (many_ports py attributes)
confidence py bruteforce attributes = high_or_medium (many_logins py attributes)
confidence py denied_burst attributes = high_or_medium (many_ports py attributes)
confidence py suspicious_connection attributes =
    if truthy (value_of "processName" attributes) || truthy (value_of "protocol" attributes)
    then Confidence.medium
    else Confidence.low
confidence py privileged_logon attributes = Confidence.medium
confidence py resource_pressure attributes = Confidence.medium
confidence py manual attributes = Confidence.medium

abbrev default_attack : Family → Option String → String
default_attack denied_burst rule_id = "denied_traffic_burst"
default_attack network_scan rule_id = "port_scan"
default_attack bruteforce rule_id = "brute_force"
default_attack family none = family_text family
default_attack family (some rule_id) = rule_id

unfoldable pub attack_type : Family → Option String → JsonFields → String
unfolding family_text string_or_none
attack_type family rule_id attributes = elim (string_or_none (value_of "attackType" attributes)) [
  | some attack ↦ attack
  | none ↦ default_attack family rule_id
]

-- current in {...}, for a text
abbrev is_among : List String → Json → Bool
is_among names (str text) = contains text names
is_among names _ = false

abbrev level_for : String → String
level_for severity =
    if contains severity ("critical" ∷ "high" ∷ [])
    then "T3"
    else if severity == "medium"
    then "T2"
    else "T1"

-- The value is kept where it is one of the names.
abbrev kept_or : List String → Json → String → String
kept_or names (str text) other = if contains text names then text else other
kept_or names _ other = other

unfoldable pub recommended_triage_level : Builtins → JsonFields → String
recommended_triage_level py incident =
    kept_or ("T1" ∷ "T2" ∷ "T3" ∷ []) (value_of "triageLevel" incident)
      (level_for (lower (text_or_empty py (value_of "severity" incident))))

unfoldable pub recommended_ticket_status : JsonFields → String
recommended_ticket_status incident =
    kept_or ("contained" ∷ "closed" ∷ []) (value_of "ticketStatus" incident) "investigating"

unfoldable pub evidence_severity : Builtins → Json → String
evidence_severity py value =
    let normalized = lower (text_or_empty py value) in
    if contains normalized ("critical" ∷ "high" ∷ "medium" ∷ "low" ∷ "informational" ∷ [])
    then normalized
    else "informational"
