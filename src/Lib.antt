-- ===== src/Lib.antt =====
-- Penguard: the playbook service, the endpoint service, the event service and parts of the API of a
-- security operations platform.
--
-- Each service is a FastAPI application over an SQL store. A request is one function from the store
-- to a reply and the store after it (Http: `Handler`); an `HTTPException` is the reply `raised`.
-- The services do not call each other: the API in front of them (apps/api) does. It runs the
-- playbooks of the playbook service against an incident (Playbooks), for users whose sessions and
-- permissions it keeps (Auth), and judges incidents of the event service (Triage).
--
-- Prelude        shared names, lists, counts, JSON values, dictionaries, and tables: an SQL table is the
--                list of its rows in the order of insertion, `none` is an integrity error.
-- Http           replies and handlers, with `do` blocks.
-- Soar           apps/soar_skipper/app.
--   Models       models.py, the sets of node_catalog.py, graph_validation.py.
--   Runtime      runtime.py: `ordered_nodes` with its loop (`drain_queue`), the previews.
--   Runs         runtime.py `build_playbook_run`; main.py `approve_playbook_run` on a run.
--   Store        store.py.
--   Service      main.py: the handlers, and `serve` for any sequence of requests.
--   Defaults     main.py: the built-in playbooks and `_seed_default_playbooks`.
-- Xdr            apps/xdr_rico/app.
--   Models       main.py: the records.
--   Store        store.py.
--   Enrollment   main.py: `create_enrollment`, `pair_enrollment`, `bearer_token`,
--                `require_enrollment_token_for_endpoint`.
--   Events       main.py: `ingest_endpoint_event`.
--   Actions      main.py: the action queue of an endpoint, and `delete_endpoint`.
--   Correlation  main.py: `correlate_endpoint_context`.
--   Service      main.py: the authorized event, and `serve` for any sequence of requests.
-- Playbooks      apps/api/app/playbooks: effects.py, webhook_destinations.py.
--   Documents    playbooks and incidents as JSON, `_value_at_path`, `_severity_matches`.
--   Walk         `_walk_nodes`, `_next_node`.
--   Render       `_render`.
--   Effects      `execute_playbook_effects`, with the calls of other services as a list in order.
--   Webhooks     webhook_destinations.py: both stores, `validate_webhook_url`, `redact_webhook_url`.
-- Siem           apps/siem_kowalski/app.
--   Models       main.py: events, incidents and patches.
--   Rules        main.py: DETECTION_RULES and `_matches_rule`.
--   Store        store.py.
--   Enrich       main.py: `_enrich_failed_login_burst`; Scans and Flood: the other enrichments.
--   Detect       main.py: `_detect_incident`.
--   Service      main.py: ingestion, the two updates of an incident, and `serve` for any sequence of
--                requests.
--   Metrics      main.py: `_executive_metrics`; Scope, Sla and Times: its parts.
-- Auth           apps/api/app/auth.
--   Sessions     session_store.py: the store in memory and the SQL store.
--   Permissions  permissions.py: the catalog, effective permissions, the gate of a route.
--   RateLimit    rate_limit.py.
-- Triage         apps/api/app/soc/triage.
--   Models       models.py.
--   Read         engine.py: what is read of an incident, its confidence and its level.
--   Evidence, Mitre, Candidates, Templates
--                engine.py: the parts of a context.
--   Engine       engine.py: `build_triage_context`.
-- Policies       apps/api/app/policies: models.py, the reviews of fortigate_adapter.py, and the choice of
--                the adapter in service.py.
-- SoarTests, XdrTests, SiemTests, PlaybooksTests, AuthTests,
-- TriageTests, PoliciesTests
--                runs on concrete input.
--
-- Conventions. A time is a number. The clock, `uuid4().hex` and the digest (`sha256_hex`, any
-- function on texts; sha256 of sorted JSON) are arguments. `model_dump` and loading back give the same record, with the
-- validators of `Playbook` run again on a load. The loop of `ordered_nodes` has as many rounds of
-- fuel as the playbook has nodes: a round takes a node for good. The loop of `_walk_nodes` has one
-- more: each round but the last visits a node for the first time. `text.lower()` and
-- `casefold` are those of ASCII letters. Python's `str` on values that are no text, `int` and
-- `float` on texts, `str.strip`, `urlparse` and the cipher of session tokens and of webhook URLs are
-- arguments, the cipher with the law that it decrypts what it encrypted. A number in an event or an
-- incident is an integer, and -inf is `none`; a quotient of durations is rounded as `round` does. A
-- transaction is atomic and requests do not interleave.
--
-- Not modelled: canvas positions, the labels of the node catalogue, titles of timeline items, log
-- lines, the simulator, calls of other services that raise, the clients of FortiGate and FortiWeb (a
-- review that is applied gives the call that is made), the rest of the API, and the other applications
-- (the agent, the web client).
pub mod Auth
pub mod AuthTests
pub mod Http
pub mod Playbooks
pub mod PlaybooksTests
pub mod Policies
pub mod PoliciesTests
pub mod Prelude
pub mod Siem
pub mod SiemTests
pub mod Soar
pub mod SoarTests
pub mod Triage
pub mod TriageTests
pub mod Xdr
pub mod XdrTests
