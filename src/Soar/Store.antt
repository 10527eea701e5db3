-- ===== src/Soar/Store.antt =====
-- apps/soar_skipper/app/store.py: the two tables and the statements of `SoarStore`. The payload
-- column holds the record that pydantic dumps and loads back.
pub mod Views
use mathlib.Core.List.{reverse}
use mathlib.Core.Bool.{decide}
use mathlib.Core.Option
use penguard.Prelude.{
  ℕ, String, List, [], ◌∷◌, Bool, Option, none, some, map, length, filter, ◌==◌, if◌then◌else◌,
}
use penguard.Prelude.Tables.{select, update, delete, insert}
use penguard.Soar.Models.{Playbook, PlaybookRun, Status, Status-discrete}

pub record PlaybookRow : Type 0 where
  pub id : String
  pub payload : Playbook

pub record RunRow : Type 0 where
  pub id : String
  pub incident_id : String
  pub playbook_id : String
  pub status : Status
  pub created_at : ℕ
  pub payload : PlaybookRun

pub record SoarStore : Type 0 where
  pub playbooks : List PlaybookRow
  pub playbook_runs : List RunRow

abbrev pub playbook_key : PlaybookRow → String
playbook_key row = row.id

abbrev pub run_key : RunRow → String
run_key row = row.id

abbrev playbook_payload : PlaybookRow → Playbook
playbook_payload row = row.payload

abbrev run_payload : RunRow → PlaybookRun
run_payload row = row.payload

unfoldable pub get_playbook : String → SoarStore → Option Playbook
get_playbook playbook_id store =
    Option.map playbook_payload (select playbook_key playbook_id store.playbooks)

unfoldable pub list_playbooks : SoarStore → List Playbook
list_playbooks store = map playbook_payload store.playbooks

-- `none`: the unique id is taken, an integrity error.
unfoldable pub save_playbook : String → Playbook → SoarStore → Option SoarStore
save_playbook playbook_id payload store =
    Option.map (λ rows. record store { playbooks = rows })
      (insert playbook_key (record { id = playbook_id; payload = payload }) store.playbooks)

unfoldable pub update_playbook : String → Playbook → SoarStore → SoarStore
update_playbook playbook_id payload store = record store {
  playbooks =
      update playbook_key playbook_id (λ row. record row { payload = payload }) store.playbooks;
}

unfoldable pub delete_playbook : String → SoarStore → SoarStore
delete_playbook playbook_id store = record store {
  playbooks = delete playbook_key playbook_id store.playbooks;
}

unfoldable count_playbooks : SoarStore → ℕ
count_playbooks store = length store.playbooks

unfoldable pub get_run : String → SoarStore → Option PlaybookRun
get_run run_id store = Option.map run_payload (select run_key run_id store.playbook_runs)

-- Newest row first.
unfoldable pub list_runs : Option Status → SoarStore → List PlaybookRun
list_runs none store = map run_payload (reverse store.playbook_runs)
list_runs (some status) store = map run_payload (
    filter (λ (row : RunRow). decide (Status-discrete row.status status))
      (reverse store.playbook_runs))

unfoldable pub save_run : PlaybookRun → String → String → Status → ℕ → SoarStore → Option SoarStore
save_run payload incident_id playbook_id status created_at store =
    Option.map (λ rows. record store { playbook_runs = rows })
      (insert run_key
        (record {
          id = payload.id;
          incident_id = incident_id;
          playbook_id = playbook_id;
          status = status;
          created_at = created_at;
          payload = payload;
        })
        store.playbook_runs)

unfoldable pub update_run : PlaybookRun → Status → SoarStore → SoarStore
update_run payload status store = record store {
  playbook_runs =
      update run_key payload.id (λ row. record row { status = status; payload = payload })
        store.playbook_runs;
}
