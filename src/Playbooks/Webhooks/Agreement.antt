-- ===== src/Playbooks/Webhooks/Agreement.antt =====
-- apps/api/app/playbooks/webhook_destinations.py: `get_public` and `get_url` of the store in memory
-- and of the SQL store compared. Both times of an item that is created are one argument, though the
-- source reads the clock for each; the lists that the stores give are not compared.
use mathlib.Core.Option
use penguard.Prelude.{
  String, List, [], ◌∷◌, ◌≡◌, refl, subst, false, Option, none, some, ◌==◌, All, inl, inr,
  Bool-cases, Option-cases,
}
use penguard.Prelude.Dicts.{dict_get, dict_get-dict_set}
use penguard.Prelude.Tables.{select, select-insert}
use penguard.Playbooks.Webhooks.{
  Url, Creation, PublicItem, public_item, MemoryStore, memory_create, memory_get_public,
  memory_get_url, DestinationRow, row_key, sql_create, sql_get_public, sql_get_url,
}

abbrev pub empty_store : MemoryStore
empty_store = record { items = []; urls = [] }

-- Creations with the id and the time that each gets.
abbrev pub Steps : Type 0
Steps = List ((String × String) × Creation)

unfoldable pub memory_all : (String → Url) → Steps → MemoryStore → MemoryStore
memory_all urlparse [] store = store
memory_all urlparse (((id, now), creation) ∷ steps) store =
    memory_all urlparse steps (memory_create urlparse id now now creation store)

-- `none`, if an id was taken.
unfoldable pub sql_all :
    (String → Url) → (String → String) → Steps → List DestinationRow → Option (List DestinationRow)
sql_all urlparse encrypt [] rows = some rows
sql_all urlparse encrypt (((id, now), creation) ∷ steps) rows =
    elim (sql_create urlparse encrypt id now creation rows) [
      | none ↦ none
      | some after ↦ sql_all urlparse encrypt steps after
    ]

abbrev pub HasUrls : Steps → Type 0
HasUrls steps = All (λ (step : (String × String) × Creation). (step.1.url == "") ≡ false) steps

abbrev item_of : DestinationRow → PublicItem
item_of row = row.item

module _ (urlparse : String → Url) (encrypt decrypt : String → String)
    (law : (text : String) → decrypt (encrypt text) ≡ text) where
  abbrev url_of : DestinationRow → String
  url_of row = decrypt row.url_blob

  -- The dictionaries hold what the rows hold, and no URL is empty.
  abbrev Agree : MemoryStore → List DestinationRow → Type 0
  Agree store rows =
      (id : String)
      → (dict_get id store.items ≡ Option.map item_of (select row_key id rows))
        × ((dict_get id store.urls ≡ Option.map url_of (select row_key id rows))
            × ((row : DestinationRow)
                → select row_key id rows ≡ some row
                → (url_of row == "") ≡ false))

  create-Agree :
      (id now : String) (creation : Creation) (store : MemoryStore)
      (rows after : List DestinationRow)
      → (creation.url == "") ≡ false
      → Agree store rows
      → sql_create urlparse encrypt id now creation rows ≡ some after
      → Agree (memory_create urlparse id now now creation store) after
  unfolding memory_create sql_create
  create-Agree id now creation store rows after full agree h j =
      let row : DestinationRow = record {
        item = public_item urlparse id now now creation;
        url_blob = encrypt creation.url;
      } in
      let found = select-insert row_key j row rows h in
      elim (Bool-cases (id == j)) [
        | inl e ↦ (
          rw (dict_get-dict_set j id row.item store.items, found, e),
          (
            rw (dict_get-dict_set j id creation.url store.urls, found, e, law creation.url),
            λ row' k.
                let here : some row ≡ some row' = rw (found, e) at k in
                let same : row ≡ row' = cc here in
                subst (λ (r : DestinationRow). (url_of r == "") ≡ false) same
                  (rw (law creation.url) full),
          ),
        )
        | inr e ↦ (
          rw (dict_get-dict_set j id row.item store.items, found, e) (agree j).0,
          (
            rw (dict_get-dict_set j id creation.url store.urls, found, e) (agree j).1.0,
            λ row' k. (agree j).1.1 row' (rw (found, e) at k),
          ),
        )
      ]

  all-Agree :
      (steps : Steps) (store : MemoryStore) (rows after : List DestinationRow)
      → HasUrls steps
      → Agree store rows
      → sql_all urlparse encrypt steps rows ≡ some after
      → Agree (memory_all urlparse steps store) after
  unfolding memory_all sql_all
  all-Agree [] store rows after full agree h = subst (Agree store) (cc h) agree
  all-Agree (((id, now), creation) ∷ steps) store rows after full agree h =
      elim (Option-cases (sql_create urlparse encrypt id now creation rows)) [
        | inl e ↦ cc (rw (sql_all, e) at h)
        | inr (next, e) ↦
            all-Agree steps (memory_create urlparse id now now creation store) next after full.1
              (create-Agree id now creation store rows next full.0 agree e) (rw (sql_all, e) at h)
      ]

  Agree-replies :
      (store : MemoryStore) (rows : List DestinationRow) (owner_user_id id : String)
      → Agree store rows
      → (memory_get_public owner_user_id id store ≡ sql_get_public owner_user_id id rows)
        × (memory_get_url owner_user_id id store ≡ sql_get_url decrypt owner_user_id id rows)
  unfolding memory_get_public memory_get_url sql_get_public sql_get_url
  Agree-replies store rows owner_user_id id agree =
      let (items, (urls, full)) = agree id in
      elim (Option-cases (select row_key id rows)) [
        | inl e ↦ (
          rw (memory_get_public, sql_get_public, items, e),
          rw (memory_get_url, memory_get_public, sql_get_url, items, e),
        )
        | inr (row, e) ↦ elim (Bool-cases (row.item.owner_user_id == owner_user_id)) [
          | inl k ↦ (
            rw (memory_get_public, sql_get_public, items, e, k),
            rw (memory_get_url, memory_get_public, sql_get_url, items, e, k, urls, e, full row e),
          )
          | inr k ↦ (
            rw (memory_get_public, sql_get_public, items, e, k),
            rw (memory_get_url, memory_get_public, sql_get_url, items, e, k),
          )
        ]
      ]

-- Whichever store is configured: if the SQL store takes a sequence of creations, all with a URL and
-- each with one time for both of its dates in either store, then for every user and id it gives the same item and the same URL as the store in memory after the
-- same creations, or both raise, for a cipher that decrypts what it encrypted.
pub stores-agree :
    (urlparse : String → Url) (encrypt decrypt : String → String)
    → ((text : String) → decrypt (encrypt text) ≡ text)
    → (steps : Steps) (rows : List DestinationRow) (owner_user_id id : String) → HasUrls steps
    → sql_all urlparse encrypt steps [] ≡ some rows
    → (memory_get_public owner_user_id id (memory_all urlparse steps empty_store)
        ≡ sql_get_public owner_user_id id rows)
      × (memory_get_url owner_user_id id (memory_all urlparse steps empty_store)
          ≡ sql_get_url decrypt owner_user_id id rows)
unfolding dict_get select
stores-agree urlparse encrypt decrypt law steps rows owner_user_id id full h =
    Agree-replies urlparse encrypt decrypt law (memory_all urlparse steps empty_store) rows
      owner_user_id id
      (all-Agree urlparse encrypt decrypt law steps empty_store [] rows full
        (λ j. (refl, (refl, λ row k. cc k))) h)
