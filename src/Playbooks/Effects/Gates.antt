-- ===== src/Playbooks/Effects/Gates.antt =====
-- apps/api/app/playbooks/effects.py, `execute_playbook_effects`: gates, the nodes that wait for a
-- human.
use penguard.Prelude.{
  ℕ, String, List, [], ◌∷◌, ◌++◌, ◌≡◌, refl, Bool, true, false, ◌||◌, ◌==◌, arith, append-nil, inl,
  inr, Bool-cases, eq_iff, ◌⊎◌,
}
use penguard.Prelude.Json.{Json, JsonFields}
use penguard.Soar.Models.{
  condition_severity as severity_type, enrich_ip as enrich_type, case_note as note_type,
  audit_note as audit_type, approval_required as approval_type, notify_webhook as webhook_type,
  webhook_dry_run as dry_run_type,
}
use penguard.Playbooks.Documents.{Node, Document}
use penguard.Playbooks.Effects.{
  Progress, type_text, is_recommendation, approval_required, recommend_block, run_node, run_nodes,
}

abbrev pub is_gate : String → Bool
is_gate node_type = node_type == "approval.required" || is_recommendation node_type

gate-cases :
    (t : String)
    → is_gate t ≡ true
    → (t ≡ "approval.required")
      ⊎ (t ≡ "fortigate.recommend_block")
      ⊎ (t ≡ "fortigate.temporary_block")
      ⊎ (t ≡ "fortiweb.recommend_block")
unfolding is_recommendation
gate-cases t h = ground (
  arith,
  h,
  eq_iff t "approval.required",
  eq_iff t "fortigate.recommend_block",
  eq_iff t "fortigate.temporary_block",
  eq_iff t "fortiweb.recommend_block",
)

module _ (str_of : Json → String) (send : String → JsonFields → Bool × ℕ) (incident : JsonFields)
    (playbook : Document) where
  run_node-gate :
      (gate : Node) (s : Progress)
      → is_gate (type_text gate) ≡ true
      → ((run_node str_of send incident playbook gate s).0 ≡ false)
        × ((run_node str_of send incident playbook gate s).1.calls ≡ s.calls)
  unfolding run_node is_recommendation approval_required recommend_block
  run_node-gate gate s h = elim (gate-cases (type_text gate) h) [
    | inl approval ↦ rw (approval, run_node) (refl, append-nil s.calls)
    | inr (inl block) ↦ rw (block, run_node) (refl, append-nil s.calls)
    | inr (inr (inl temporary)) ↦ rw (temporary, run_node) (refl, append-nil s.calls)
    | inr (inr (inr web)) ↦ rw (web, run_node) (refl, append-nil s.calls)
  ]

  -- What stands behind a gate does not count: a run that comes to the gate ends there.
  pub run_nodes-gate :
      (before after : List Node) (gate : Node) (s : Progress)
      → is_gate (type_text gate) ≡ true
      → run_nodes str_of send incident playbook (before ++ gate ∷ after) s
        ≡ run_nodes str_of send incident playbook (before ++ gate ∷ []) s
  unfolding run_nodes
  run_nodes-gate [] after gate s h = rw ((run_node-gate gate s h).0) refl
  run_nodes-gate (node ∷ before) after gate s h =
      rw (run_nodes-gate before after gate (run_node str_of send incident playbook node s).1 h) refl

  -- A gate and all that stands behind it make no call of the SIEM, the audit log or the webhook
  -- service.
  pub calls-gate :
      (before after : List Node) (gate : Node) (s : Progress)
      → is_gate (type_text gate) ≡ true
      → (run_nodes str_of send incident playbook (before ++ gate ∷ after) s).calls
        ≡ (run_nodes str_of send incident playbook before s).calls
  unfolding run_nodes
  calls-gate [] after gate s h = rw ((run_node-gate gate s h).0) ((run_node-gate gate s h).1)
  calls-gate (node ∷ before) after gate s h =
      elim (Bool-cases (run_node str_of send incident playbook node s).0) [
        | inl on ↦
            rw on (calls-gate before after gate (run_node str_of send incident playbook node s).1 h)
        | inr off ↦ rw off refl
      ]
