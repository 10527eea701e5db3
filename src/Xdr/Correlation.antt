-- ===== src/Xdr/Correlation.antt =====
-- apps/xdr_rico/app/main.py, `correlate_endpoint_context`: which endpoints match the entities of an
-- incident. Lower-casing and case folding are those of ASCII letters, compared as code points.
pub mod Ranking
use Prim.Native.Char.{code}
use penguard.Prelude.{
  ℕ, ◌+◌, String, concat, List, [], ◌∷◌, ◌++◌, Bool, true, false, not, ◌&&◌, ◌||◌, Option, none,
  some, ◌==◌, any, contains, eqb, ltb, leb, length, map, take, sort_by, if◌then◌else◌,
}
use penguard.Prelude.Json.{Json, JsonItems, str, arr, nil, cons}
use penguard.Prelude.Texts.{lower_codes, same_codes}
use penguard.Xdr.Models.{Endpoint, TimelineItem, Attributes}
use penguard.Xdr.Store.{XdrStore, list_endpoints, list_timeline}

pub record CorrelationRequest : Type 0 where
  pub entities : Attributes
  pub limit : ℕ
  pub timeline_limit : ℕ

pub record MatchedField : Type 0 where
  pub field : String
  pub value : String
  pub matched_endpoint_field : String

pub record EndpointContextItem : Type 0 where
  pub endpoint : Endpoint
  pub score : ℕ
  pub matched_fields : List MatchedField
  pub timeline : List TimelineItem

-- left.lower() == right, for a right side in lower case
abbrev same_lower : String → String → Bool
same_lower left right = same_codes (lower_codes left) (lower_codes right)

abbrev is_named : List String → String → Bool
is_named names field = any (λ name. same_lower field name) names

-- "ip" in normalized_field
unfoldable pub has_ip : List ℕ → Bool
has_ip [] = false
has_ip (a ∷ []) = false
has_ip (a ∷ b ∷ rest) = (eqb a b'i' && eqb b b'p') || has_ip (b ∷ rest)

-- _same_text
unfoldable pub same_text : String → Option String → Bool
same_text left none = false
same_text left (some right) = not (right == "") && same_lower left right

-- What stands after the last `separator`, or all of the codes.
unfoldable pub after_last : ℕ → List ℕ → List ℕ
after_last separator [] = []
after_last separator (c ∷ rest) =
    let later = after_last separator rest in
    if any (λ d. eqb d separator) rest then later else if eqb c separator then rest else c ∷ rest

-- What stands before the first `separator`, or all of the codes.
unfoldable pub before_first : ℕ → List ℕ → List ℕ
before_first separator [] = []
before_first separator (c ∷ rest) =
    let later = before_first separator rest in if eqb c separator then [] else c ∷ later

-- _principal_name
unfoldable pub principal_name : List ℕ → List ℕ
principal_name codes = before_first b'@' (after_last b'/' (after_last b'\\' codes))

-- _same_user
unfoldable pub same_user : String → Option String → Bool
same_user left none = false
same_user left (some right) =
    not (right == "")
    && (same_lower left right
        || same_codes (principal_name (lower_codes left)) (principal_name (lower_codes right)))

abbrev item_strings : String → JsonItems → List (String × String)
item_strings field nil = []
item_strings field (cons (str value) items) =
    let rest = item_strings field items in if value == "" then rest else (field, value) ∷ rest
item_strings field (cons _ items) = item_strings field items

abbrev value_strings : String → Json → List (String × String)
value_strings field (str value) = if value == "" then [] else (field, value) ∷ []
value_strings field (arr items) = item_strings field items
value_strings field _ = []

-- _entity_strings
unfoldable pub entity_strings : Attributes → List (String × String)
entity_strings [] = []
entity_strings ((field, value) ∷ rest) = value_strings field value ++ entity_strings rest

-- The field of the endpoint that an entity matches, with its points.
unfoldable pub match_field : Endpoint → String → String → Option (String × ℕ)
match_field endpoint field value =
    if is_named ("endpointid" ∷ "endpoint_id" ∷ "endpoint.id" ∷ []) field && value == endpoint.id
    then some ("id", 100)
    else if has_ip (lower_codes field) && contains value endpoint.ip_addresses
    then some ("ipAddresses", 50)
    else if is_named ("hostname" ∷ "host" ∷ "endpointhostname" ∷ []) field
        && same_text value endpoint.hostname
    then some ("hostname", 30)
    else if is_named ("username" ∷ "user" ∷ "currentuser" ∷ "current_user" ∷ []) field
        && same_user value endpoint.current_user
    then some ("currentUser", 20)
    else none

abbrev add_match :
    String → String → Option (String × ℕ) → List MatchedField × ℕ → List MatchedField × ℕ
add_match field value none later = later
add_match field value (some (name, points)) (matched, score) = (
  record { field = field; value = value; matched_endpoint_field = name } ∷ matched,
  points + score,
)

-- The loop over the entities: the matched fields in order, and the score.
unfoldable pub matches : Endpoint → List (String × String) → List MatchedField × ℕ
matches endpoint [] = ([], 0)
matches endpoint ((field, value) ∷ rest) =
    add_match field value (match_field endpoint field value) (matches endpoint rest)

abbrev context_item :
    Endpoint → List TimelineItem → List MatchedField × ℕ → Option EndpointContextItem
context_item endpoint timeline ([], score) = none
context_item endpoint timeline (first ∷ rest, score) = some (record {
  endpoint = endpoint;
  score = score;
  matched_fields = first ∷ rest;
  timeline = timeline;
})

unfoldable pub endpoint_context_item :
    XdrStore → CorrelationRequest → Endpoint → Option EndpointContextItem
endpoint_context_item store payload endpoint =
    context_item endpoint (list_timeline endpoint.id (some payload.timeline_limit) store)
      (matches endpoint (entity_strings payload.entities))

unfoldable pub context_items :
    XdrStore → CorrelationRequest → List Endpoint → List EndpointContextItem
context_items store payload [] = []
context_items store payload (endpoint ∷ endpoints) =
    let rest = context_items store payload endpoints in
    elim (endpoint_context_item store payload endpoint) [ none ↦ rest | some item ↦ item ∷ rest ]

-- last_seen_at or datetime.min: no time is before every time
abbrev seen : Option ℕ → ℕ
seen none = 0
seen (some t) = t

-- Sorted with reverse=True, which keeps the order of items with one key.
abbrev pub ranks_before : EndpointContextItem → EndpointContextItem → Bool
ranks_before a b =
    ltb b.score a.score
    || (eqb a.score b.score && leb (seen b.endpoint.last_seen_at) (seen a.endpoint.last_seen_at))

unfoldable pub correlate_endpoint_context : CorrelationRequest → XdrStore → List EndpointContextItem
correlate_endpoint_context payload store =
    take payload.limit (sort_by ranks_before (context_items store payload (list_endpoints store)))
