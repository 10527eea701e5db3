-- ===== src/Xdr/Actions/Queue.antt =====
-- apps/xdr_rico/app/store.py, `claim_next_action`: which row it chooses.
use penguard.Prelude.{
  ℕ, ◌≤◌, ◌<◌, ◌++◌, String, List, [], ◌∷◌, ◌≡◌, refl, ap, true, none, some, All, filter, length,
  inl, inr, ◌⊎◌,
}
use penguard.Prelude.Sorts.{sorted_by-first, sorted_by-nil, sorted_by-FirstOf}
use penguard.Xdr.Models.{Action}
use penguard.Xdr.Store.{
  XdrStore, ActionRow, is_next, queued_rows, claimed_action, claim_first, claim_next_action,
}

-- How many actions wait for the endpoint.
abbrev pub waiting : String → List ActionRow → ℕ
waiting ep rows = length (filter (is_next ep) rows)

pub List-cases :
    (l : List ActionRow)
    → (l ≡ []) ⊎ ((row : ActionRow) × (rest : List ActionRow) × (l ≡ row ∷ rest))
List-cases [] = inl refl
List-cases (row ∷ rest) = inr (row, rest, refl)

-- `a` is the action of a waiting row of the table, marked as claimed. No waiting row was created before
-- this one, and the waiting rows that stand before it in the table were created after it.
pub record Oldest (ep : String) (now : ℕ) (s : XdrStore) (a : Action) : Type 0 where
  pub row : ActionRow
  pub before : List ActionRow
  pub after : List ActionRow
  pub split : s.actions ≡ before ++ row ∷ after
  pub waits : is_next ep row ≡ true
  pub given : a ≡ claimed_action now row.payload
  pub oldest :
      All (λ (other : ActionRow). row.created_at ≤ other.created_at) (filter (is_next ep) s.actions)
  pub first :
      All (λ (other : ActionRow). row.created_at < other.created_at) (filter (is_next ep) before)

-- A claim gives nothing exactly if no action waits for the endpoint. Otherwise it gives the action of
-- a row of the table that waits for the endpoint, marked as claimed: no waiting row was created
-- earlier than this one, and of those created at the same time it stands first in the table.
pub claim_next-Oldest :
    (ep : String) (now : ℕ) (s : XdrStore)
    → (((claim_next_action ep now s).0 ≡ none) × (waiting ep s.actions ≡ 0))
      ⊎ ((a : Action) × ((claim_next_action ep now s).0 ≡ some a) × Oldest ep now s a)
unfolding claim_next_action claim_first queued_rows
claim_next-Oldest ep now s = elim (List-cases (queued_rows ep s.actions)) [
  | inl empty ↦ inl (
    rw (empty, claim_next_action),
    ap length
        (sorted_by-nil (λ (r : ActionRow). r.created_at) (filter (is_next ep) s.actions) empty),
  )
  | inr (row, rest, e) ↦
      let place = sorted_by-FirstOf (λ (r : ActionRow). r.created_at) (is_next ep) s.actions e in
      inr (
        claimed_action now row.payload,
        rw (e, claim_next_action),
        record {
          row = row;
          before = place.before;
          after = place.after;
          split = place.split;
          waits = place.passes;
          given = refl;
          oldest =
              sorted_by-first (λ (r : ActionRow). r.created_at) (filter (is_next ep) s.actions) e;
          first = place.first;
        },
      )
]
