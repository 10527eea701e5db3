-- ===== src/Xdr/Models.antt =====
-- apps/xdr_rico/app/main.py: the records of the endpoint service. A time is a number; a
-- `dict[str, object]` is the list of its entries.
use penguard.Prelude.{
  ℕ, String, List, [], ◌∷◌, Bool, true, false, Option, none, ◌==◌, if◌then◌else◌,
}
use penguard.Prelude.Json.{Json}

pub data EventType : Type 0 where
  heartbeat process_snapshot connection_snapshot auth_failed_login auth_privileged_logon login :
      EventType
  file_change suspicious_process sysmon_network_connection sysmon_dns_query health_signal :
      EventType

pub data Health : Type 0 where
  unknown healthy warning critical offline : Health

pub data ActionKind : Type 0 where
  collect_now run_diagnostic : ActionKind

pub data ActionStatus : Type 0 where
  queued claimed completed failed : ActionStatus

-- EndpointActionResultStatus
pub data ResultStatus : Type 0 where
  result_completed result_failed : ResultStatus

abbrev pub Attributes : Type 0
Attributes = List (String × Json)

-- {**old, **new}: a key of `old` keeps its place, and its value if `new` does not have it.
abbrev merge_entry : Attributes → String → Json → Attributes
merge_entry [] key value = (key, value) ∷ []
merge_entry ((k, v) ∷ rest) key value =
    let later = merge_entry rest key value in if k == key then (k, value) ∷ rest else (k, v) ∷ later

unfoldable pub merge : Attributes → Attributes → Attributes
merge old [] = old
merge old ((key, value) ∷ new) = merge (merge_entry old key value) new

pub record EnrollmentRecord : Type 0 where
  pub id : String
  pub display_name : Option String
  pub hostname_hint : Option String
  pub created_at : ℕ
  pub token_hash : String
  pub claimed_endpoint_id : Option String

pub record Endpoint : Type 0 where
  pub id : String
  pub hostname : Option String
  pub ip_addresses : List String
  pub current_user : Option String
  pub last_seen_at : Option ℕ
  pub health : Health
  pub attributes : Attributes

pub record EventCreate : Type 0 where
  pub endpoint_id : String
  pub event_type : EventType
  pub occurred_at : ℕ
  pub hostname : Option String
  pub ip_addresses : Option (List String)
  pub current_user : Option String
  pub health : Option Health
  pub attributes : Attributes

pub record TimelineItem : Type 0 where
  pub id : String
  pub endpoint_id : String
  pub event_type : EventType
  pub occurred_at : ℕ
  pub hostname : Option String
  pub ip_addresses : List String
  pub current_user : Option String
  pub health : Option Health
  pub attributes : Attributes

pub record Action : Type 0 where
  pub id : String
  pub endpoint_id : String
  pub kind : ActionKind
  pub status : ActionStatus
  pub parameters : Attributes
  pub created_at : ℕ
  pub claimed_at : Option ℕ
  pub completed_at : Option ℕ
  pub result : Attributes

-- The defaults of `Endpoint(id=...)`.
abbrev pub new_endpoint : String → Endpoint
new_endpoint id = record {
  id = id;
  hostname = none;
  ip_addresses = [];
  current_user = none;
  last_seen_at = none;
  health = unknown;
  attributes = [];
}

unfoldable pub status_of_result : ResultStatus → ActionStatus
status_of_result result_completed = completed
status_of_result result_failed = failed

-- status == "queued"
unfoldable pub is_queued : ActionStatus → Bool
is_queued queued = true
is_queued _ = false
