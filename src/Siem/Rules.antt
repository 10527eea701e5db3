-- ===== src/Siem/Rules.antt =====
-- apps/siem_kowalski/app/main.py: the detection rules, and which events a rule matches.
use text.Mathlib.Text.{starts_with}
use penguard.Prelude.{
  ℕ, String, List, [], ◌∷◌, Bool, true, false, not, ◌&&◌, ◌||◌, Option, none, some, ◌==◌, map, any,
  all, contains as text_among, if◌then◌else◌,
}
use penguard.Prelude.Json.{ℤ, pos, Json, JsonFields, null, boolean, num, str, arr, obj}
use penguard.Prelude.Texts.{split}
use penguard.Prelude.Values.{Builtins, leℤ, json_eq, item_in, value_of}
use penguard.Siem.Models.{SecurityEvent}

pub data RuleOperator : Type 0 where
  equals gte exists contains : RuleOperator

pub data RuleMatch : Type 0 where
  match_all match_any : RuleMatch

pub record RuleCondition : Type 0 where
  pub path : String
  pub operator : RuleOperator
  pub value : Json

pub record DetectionRule : Type 0 where
  pub id : String
  pub title : String
  pub summary : String
  pub severity : Option String
  pub event_types : List String
  pub match : RuleMatch
  pub conditions : List RuleCondition

abbrev at_least : String → ℕ → RuleCondition
at_least path n = record { path = path; operator = gte; value = num (pos n) }

abbrev is_true : String → RuleCondition
is_true path = record { path = path; operator = equals; value = boolean true }

abbrev rule :
    String → String → Option String → List String → List RuleCondition → String → DetectionRule
rule id title severity event_types conditions summary = record {
  id = id;
  title = title;
  summary = summary;
  severity = severity;
  event_types = event_types;
  match = match_all;
  conditions = conditions;
}

abbrev pub detection_rules : List DetectionRule
detection_rules =
    rule "network_scan" "Possible port scan" (some "high") ("network.scan" ∷ []) []
      "Network scan telemetry was observed."
    ∷ rule "denied_traffic_burst" "Denied traffic burst" none ("network.deny" ∷ [])
        (at_least "attributes.count" 20 ∷ [])
        "Denied network traffic exceeded the configured burst threshold."
    ∷ rule "repeated_failed_login" "Possible authentication brute force" none
        ("auth.failed_login" ∷ []) (at_least "attributes.count" 3 ∷ [])
        "Failed authentication attempts reached the brute-force threshold."
    ∷ rule "privileged_logon_unusual_host" "Privileged logon on unusual host" (some "high")
        ("auth.privileged_logon" ∷ [])
        (is_true "attributes.privileged" ∷ is_true "attributes.unusualHost" ∷ [])
        "A privileged account logged on to a host outside the expected baseline."
    ∷ rule "critical_server_file_change" "Critical server file change" (some "high")
        ("file.change" ∷ []) (is_true "attributes.criticalPath" ∷ [])
        "Endpoint telemetry reported a file change under a critical watched path."
    ∷ rule "suspicious_endpoint_connection" "Suspicious endpoint connection" (some "high")
        ("endpoint.suspicious_connection" ∷ []) []
        "Endpoint telemetry reported a suspicious connection."
    ∷ record (rule "fortigate_resource_pressure" "FortiGate resource pressure" (some "high")
        ("fortigate.system_status" ∷ [])
        (at_least "attributes.cpuPercent" 90 ∷ at_least "attributes.memoryPercent" 90 ∷ [])
        "FortiGate system telemetry reported high CPU or memory pressure.") { match = match_any }
    ∷ rule "fortiweb_waf_attack" "FortiWeb WAF attack blocked" (some "high")
        ("waf.attack" ∷ "http.attack" ∷ [])
        (record { path = "attributes.action"; operator = exists; value = null } ∷ [])
        "FortiWeb blocked a web attack against a protected application."
    ∷ rule "fortiweb_dos_activity" "FortiWeb DoS activity detected" (some "critical")
        ("waf.dos" ∷ []) []
        "Penguard observed or inferred DoS activity against a protected application."
    ∷ rule "fortiweb_blocked_request" "FortiWeb blocked suspicious request" (some "medium")
        ("waf.blocked_request" ∷ []) []
        "FortiWeb blocked a suspicious request against a protected application."
    ∷ []

-- The loop of `_dict_path`.
unfoldable pub at_segments : List String → Json → Json
at_segments [] current = current
at_segments (part ∷ parts) (obj fields) = at_segments parts (value_of part fields)
at_segments (part ∷ parts) _ = null

abbrev pub dict_path : JsonFields → List String → Json
dict_path payload parts = at_segments parts (obj payload)

-- The text behind "entities." or "attributes.", as its segments.
abbrev behind_first : List String → List String
behind_first [] = []
behind_first (_ ∷ parts) = parts

-- _value_at_path
unfoldable pub value_at_path : SecurityEvent → String → Json
value_at_path event path =
    if path == "eventType"
    then str event.event_type
    else if path == "source"
    then str event.source
    else if path == "severity"
    then str event.severity
    else if starts_with path "entities."
    then dict_path event.entities (behind_first (split b'.' path))
    else if starts_with path "attributes."
    then dict_path event.attributes (behind_first (split b'.' path))
    else null

-- `expected in value`, for texts
unfoldable pub is_part : String → String → Bool
is_part expected String.[] = expected == ""
is_part expected (String.◌∷◌ c rest) =
    let later = is_part expected rest in starts_with (String.◌∷◌ c rest) expected || later

-- _contains
unfoldable pub contains_value : Json → Json → Bool
contains_value (str text) (str expected) = is_part expected text
contains_value (arr items) expected = item_in expected items
contains_value _ _ = false

-- _coerce_number; `none` is -inf
unfoldable pub coerce_number : Builtins → Json → Option ℤ
coerce_number py (num n) = some n
coerce_number py (str text) = py.float_of text
coerce_number py _ = none

-- left >= right, where `none` is -inf
unfoldable pub at_or_above : Option ℤ → Option ℤ → Bool
at_or_above left none = true
at_or_above none (some right) = false
at_or_above (some left) (some right) = leℤ right left

-- value is not None and value != ""
abbrev pub is_given : Json → Bool
is_given null = false
is_given (str text) = not (text == "")
is_given _ = true

unfoldable pub holds : Builtins → RuleOperator → Json → Json → Bool
holds py exists value expected = is_given value
holds py equals value expected = json_eq value expected
holds py contains value expected = contains_value value expected
holds py gte value expected = at_or_above (coerce_number py value) (coerce_number py expected)

unfoldable pub matches_condition : Builtins → SecurityEvent → RuleCondition → Bool
unfolding holds
matches_condition py event condition =
    holds py condition.operator (value_at_path event condition.path) condition.value

abbrev pub combined : RuleMatch → List Bool → Bool
combined match_any results = any (λ r. r) results
combined match_all results = all (λ r. r) results

-- An empty list of event types stands for all.
abbrev pub is_listed : String → List String → Bool
is_listed event_type [] = true
is_listed event_type (first ∷ rest) = text_among event_type (first ∷ rest)

unfoldable pub matches_rule : Builtins → SecurityEvent → DetectionRule → Bool
matches_rule py event r =
    is_listed event.event_type r.event_types
    && combined r.match (map (matches_condition py event) r.conditions)
