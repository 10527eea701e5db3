-- ===== src/Playbooks/Webhooks.antt =====
-- apps/api/app/playbooks/webhook_destinations.py: the destinations of a user's webhooks, in memory
-- and in SQL. `urlparse`, `str.strip`, the cipher of the stored URL and the times that the clock gives
-- are arguments; a row of the table keeps its times as the texts that its item gives. The HTTP request
-- that sends a payload is not modelled.
pub mod Agreement
pub mod Redaction
use mathlib.Core.Option
use penguard.Prelude.{
  String, concat, List, [], ◌∷◌, ◌++◌, Bool, true, false, not, ◌&&◌, ◌||◌, Option, none, some, ◌==◌,
  filter, map, contains, ◌⊎◌, inl, inr, if◌then◌else◌,
}
use text.Mathlib.Text.{starts_with}
use penguard.Prelude.Texts.{split, lower}
use penguard.Prelude.Dicts.{dict_get, dict_set}
use penguard.Prelude.Tables.{select, insert}

pub record Url : Type 0 where
  pub scheme : String
  pub netloc : String
  pub path : String

-- `_public_item`
pub record PublicItem : Type 0 where
  pub id : String
  pub owner_user_id : String
  pub name : String
  pub kind : String
  pub redacted_url : String
  pub status : String
  pub created_at : String
  pub updated_at : String

abbrev site : Url → String
site url = concat url.scheme (concat "://" url.netloc)

-- [segment for segment in path.split("/") if segment]
abbrev pub segments : String → List String
segments path = filter (λ segment. not (segment == "")) (split b'/' path)

abbrev pub redacted : Url → List String → String
redacted url (first ∷ (second ∷ (third ∷ rest))) =
    if first == "api" && second == "webhooks"
    then concat (site url) (concat "/api/webhooks/" (concat third "/..."))
    else concat (site url) "/..."
redacted url _ = concat (site url) "/..."

unfoldable pub redact_webhook_url : (String → Url) → String → String
redact_webhook_url urlparse url = redacted (urlparse url) (segments (urlparse url).path)

abbrev discord_hosts : List String
discord_hosts = "discord.com" ∷ "discordapp.com" ∷ "ptb.discord.com" ∷ "canary.discord.com" ∷ []

-- The message of the ValueError, if there is one.
abbrev pub url_error : Url → String → Option String
url_error url kind =
    if not (url.scheme == "https") || url.netloc == ""
    then some "Webhook URL must be an HTTPS URL"
    else if kind == "discord" && not (contains url.netloc discord_hosts)
    then some "Discord webhook URL must point to discord.com"
    else if kind == "discord" && not (starts_with url.path "/api/webhooks/")
    then some "Discord webhook URL must use /api/webhooks/"
    else none

unfoldable pub validate_webhook_url :
    (String → Url) → (String → String) → String → String → Option String
validate_webhook_url urlparse strip url kind = url_error (urlparse (strip url)) kind

-- What a store is asked to create.
pub record Creation : Type 0 where
  pub owner_user_id : String
  pub name : String
  pub kind : String
  pub url : String

abbrev accepted : Option String → Creation → String ⊎ Creation
accepted none creation = inr creation
accepted (some error) creation = inl error

-- `PlaybookWebhookDestinationService.create`, up to the store
unfoldable pub checked : (String → Url) → (String → String) → Creation → String ⊎ Creation
unfolding validate_webhook_url
checked urlparse strip creation =
    let kind = lower (strip creation.kind) in
    if not (contains kind ("discord" ∷ "generic" ∷ []))
    then inl "Unsupported webhook destination kind"
    else accepted (validate_webhook_url urlparse strip creation.url kind)
        (record creation { name = strip creation.name; kind = kind; url = strip creation.url })

abbrev pub public_item : (String → Url) → String → String → String → Creation → PublicItem
public_item urlparse id created_at updated_at creation = record {
  id = id;
  owner_user_id = creation.owner_user_id;
  name = creation.name;
  kind = creation.kind;
  redacted_url = redact_webhook_url urlparse creation.url;
  status = "active";
  created_at = created_at;
  updated_at = updated_at;
}

pub record MemoryStore : Type 0 where
  pub items : List (String × PublicItem)
  pub urls : List (String × String)

unfoldable pub memory_create :
    (String → Url) → String → String → String → Creation → MemoryStore → MemoryStore
unfolding dict_set
memory_create urlparse id created_at updated_at creation store = record {
  items = dict_set id (public_item urlparse id created_at updated_at creation) store.items;
  urls = dict_set id creation.url store.urls;
}

-- `none` is the KeyError of an item that is missing or another's.
abbrev pub owned : String → PublicItem → Option PublicItem
owned owner_user_id item = if item.owner_user_id == owner_user_id then some item else none

unfoldable pub memory_get_public : String → String → MemoryStore → Option PublicItem
memory_get_public owner_user_id id store = elim (dict_get id store.items) [
  | none ↦ none
  | some item ↦ owned owner_user_id item
]

unfoldable pub memory_get_url : String → String → MemoryStore → Option String
unfolding memory_get_public
memory_get_url owner_user_id id store = elim (memory_get_public owner_user_id id store) [
  | none ↦ none
  | some item ↦ dict_get id store.urls
]

unfoldable pub memory_list : String → MemoryStore → List PublicItem
memory_list owner_user_id store =
    filter (λ (item : PublicItem). item.owner_user_id == owner_user_id)
      (map (λ (entry : String × PublicItem). entry.1) store.items)

-- A row of the table: the public item beside the encrypted URL.
pub record DestinationRow : Type 0 where
  pub item : PublicItem
  pub url_blob : String

abbrev pub row_key : DestinationRow → String
row_key row = row.item.id

-- `none` is the integrity error of an id that is taken.
unfoldable pub sql_create :
    (String → Url)
    → (String → String)
    → String
    → String
    → Creation
    → List DestinationRow
    → Option (List DestinationRow)
sql_create urlparse encrypt id now creation rows =
    insert row_key
      (record { item = public_item urlparse id now now creation; url_blob = encrypt creation.url })
      rows

abbrev pub owned_row : String → Option DestinationRow → Option DestinationRow
owned_row owner_user_id none = none
owned_row owner_user_id (some row) =
    if row.item.owner_user_id == owner_user_id then some row else none

unfoldable pub sql_get_public : String → String → List DestinationRow → Option PublicItem
sql_get_public owner_user_id id rows =
    Option.map (λ (row : DestinationRow). row.item)
      (owned_row owner_user_id (select row_key id rows))

abbrev given : String → Option String
given url = if url == "" then none else some url

unfoldable pub sql_get_url :
    (String → String) → String → String → List DestinationRow → Option String
sql_get_url decrypt owner_user_id id rows =
    elim (owned_row owner_user_id (select row_key id rows)) [
      | none ↦ none
      | some row ↦ given (decrypt row.url_blob)
    ]
