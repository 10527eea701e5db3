-- ===== src/Playbooks/Effects.antt =====
-- apps/api/app/playbooks/effects.py, `execute_playbook_effects`: the effects of a run, and the calls
-- that it makes of the SIEM, the audit log and the webhook service, in their order. A call that
-- raises ends the request; the model has the calls that return. `send` is what the webhook service
-- answers: whether the delivery went well, and its status code, the same for equal deliveries. The ids
-- of the run and of the actor and the redacted URL, which audit entries carry too, are left out.
pub mod Gates
use penguard.Prelude.{
  ℕ, String, List, [], ◌∷◌, ◌++◌, Bool, true, false, not, ◌&&◌, ◌||◌, Option, none, some, ◌==◌, any,
  if◌then◌else◌,
}
use penguard.Prelude.Json.{ℤ, Json, JsonFields, boolean, num, str, obj, end, field}
use penguard.Prelude.Values.{truthy, value_of, or_default}
use penguard.Playbooks.Documents.{
  Node, Edge, Document, str_or_none, text_of, config_of, value_at_path, shown, shown_or_empty,
  severity_matches,
}
use penguard.Playbooks.Render.{render}
use penguard.Playbooks.Walk.{walk_nodes}

pub data EffectStatus : Type 0 where
  completed skipped failed waiting_approval : EffectStatus

pub record Effect : Type 0 where
  pub node_id : String
  pub node_type : String
  pub status : EffectStatus
  pub output : JsonFields

pub data Call : Type 0 where
  -- PATCH /incidents/{incidentId}/triage
  triage_note : String → Call
  audit_note : String → String → Call
  send_webhook : String → JsonFields → Call
  audit_webhook : Bool → String → String → ℕ → Call

pub record Progress : Type 0 where
  pub effects : List Effect
  pub outputs : JsonFields
  pub calls : List Call

-- Whether the loop goes on, and with what.
abbrev Step : Type 0
Step = Bool × Progress

abbrev add_effect : Effect → List Call → Progress → Progress
add_effect effect calls s = record s {
  effects = s.effects ++ effect ∷ [];
  calls = s.calls ++ calls;
}

-- outputs[node_id] = effect["output"]
abbrev add_output : Effect → Progress → Progress
add_output effect s = record s { outputs = field effect.node_id (obj effect.output) s.outputs }

-- node_type = str(node.get("type") or "")
abbrev pub type_text : Node → String
type_text node = text_of node.type

-- str(node.get("id") or node_type)
abbrev effect_id : Node → String
effect_id node = if text_of node.id == "" then type_text node else text_of node.id

unfoldable pub has_false_edge : List Edge → String → Bool
has_false_edge edges node_id =
    any
      (λ (edge : Edge). elim edge.from_node [
        | none ↦ false
        | some source ↦ elim edge.condition [
          | none ↦ false
          | some condition ↦ source == node_id && condition == "false"
        ]
      ])
      edges

unfoldable pub is_recommendation : String → Bool
is_recommendation node_type =
    node_type == "fortigate.recommend_block"
    || node_type == "fortigate.temporary_block"
    || node_type == "fortiweb.recommend_block"

-- node_type.split(".", 1)[0], for the three types above
abbrev provider : String → String
provider node_type = if node_type == "fortiweb.recommend_block" then "fortiweb" else "fortigate"

abbrev waiting_effect : Node → JsonFields → Effect
waiting_effect node output = record {
  node_id = effect_id node;
  node_type = type_text node;
  status = waiting_approval;
  output = output;
}

module _ (str_of : Json → String) (send : String → JsonFields → Bool × ℕ)
    (incident : JsonFields) where
  abbrev done : Node → JsonFields → Effect
  done node output = record {
    node_id = effect_id node;
    node_type = type_text node;
    status = completed;
    output = output;
  }

  unfoldable pub condition_severity : Document → Node → Progress → Step
  condition_severity playbook node s =
      let matched = severity_matches str_of (config_of node) incident in
      let effect : Effect = record {
        node_id = effect_id node;
        node_type = type_text node;
        status = if matched then completed else skipped;
        output = field "matched" (boolean matched) (
            field "incidentSeverity" (str (shown_or_empty str_of (value_of "severity" incident)))
              end);
      } in
      (
        matched || has_false_edge playbook.edges (effect_id node),
        add_output effect (add_effect effect [] s),
      )

  unfoldable pub enrich_ip : Node → Progress → Step
  enrich_ip node s =
      let path = shown_or_empty str_of (value_of "field" (config_of node)) in
      let effect =
        done node (field "field" (str path) (field "value" (value_at_path incident path) end)) in
      (true, add_output effect (add_effect effect [] s))

  unfoldable pub case_note : Node → Progress → Step
  case_note node s =
      let note =
        render str_of (shown_or_empty str_of (value_of "template" (config_of node))) incident
          s.outputs in
      (true, add_effect (done node (field "note" (str note) end)) (triage_note note ∷ []) s)

  unfoldable pub audit_note_node : Node → Progress → Step
  audit_note_node node s =
      let message =
        render str_of (shown_or_empty str_of (value_of "message" (config_of node))) incident
          s.outputs in
      (
        true,
        add_effect (done node (field "message" (str message) end))
            (audit_note (effect_id node) message ∷ []) s,
      )

  abbrev webhook_payload : JsonFields → String → JsonFields
  webhook_payload config content = field "content" (str content) (
      if truthy (value_of "username" config)
      then field "username" (str (shown str_of (value_of "username" config))) end
      else end)

  unfoldable pub notify_webhook : Node → Progress → Step
  notify_webhook node s =
      let config = config_of node in
      let destination = shown_or_empty str_of (value_of "destinationId" config) in
      let content =
        render str_of
          (shown_or_empty str_of
            (or_default (value_of "content" config) (value_of "message" config)))
          incident s.outputs in
      let payload = webhook_payload config content in
      let (well, code) = send destination payload in
      let effect : Effect = record {
        node_id = effect_id node;
        node_type = type_text node;
        status = if well then completed else failed;
        output =
            field "destinationId" (str destination)
              (field "statusCode" (num (ℤ.pos code)) (field "ok" (boolean well) end));
      } in
      (
        true,
        add_effect effect
            (send_webhook destination payload
              ∷ audit_webhook well (effect_id node) destination code
              ∷ [])
            s,
      )

  unfoldable pub webhook_dry_run : Node → Progress → Step
  webhook_dry_run node s = (
    true,
    add_effect
        (done node (
          field "dryRun" (boolean true)
            (field "method" (or_default (value_of "method" (config_of node)) (str "POST")) end)))
        [] s,
  )

  unfoldable pub approval_required : Node → Progress → Step
  approval_required node s = (
    false,
    add_effect
        (waiting_effect node
          (field "role" (or_default (value_of "role" (config_of node)) (str "admin")) end))
        [] s,
  )

  unfoldable pub recommend_block : Node → Progress → Step
  recommend_block node s = (
    false,
    add_effect
        (waiting_effect node (
          field "reviewRequired" (boolean true)
            (field "provider" (str (provider (type_text node))) end)))
        [] s,
  )

  -- The body of the loop; a type that is not known does nothing.
  unfoldable pub run_node : Document → Node → Progress → Step
  run_node playbook node s =
      if type_text node == "trigger.incident_created"
      then (true, s)
      else if type_text node == "condition.severity"
      then condition_severity playbook node s
      else if type_text node == "enrich.ip"
      then enrich_ip node s
      else if type_text node == "case.note"
      then case_note node s
      else if type_text node == "audit.note"
      then audit_note_node node s
      else if type_text node == "notify.webhook"
      then notify_webhook node s
      else if type_text node == "webhook.dry_run"
      then webhook_dry_run node s
      else if type_text node == "approval.required"
      then approval_required node s
      else if is_recommendation (type_text node)
      then recommend_block node s
      else (true, s)

  unfoldable pub run_nodes : Document → List Node → Progress → Progress
  run_nodes playbook [] s = s
  run_nodes playbook (node ∷ nodes) s =
      let step = run_node playbook node s in
      let rest = run_nodes playbook nodes step.1 in if step.0 then rest else step.1

  unfoldable pub execute_playbook_effects : Document → Progress
  execute_playbook_effects playbook =
      run_nodes playbook (walk_nodes str_of playbook incident)
        (record { effects = []; outputs = end; calls = [] })
