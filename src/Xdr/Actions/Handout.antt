-- ===== src/Xdr/Actions/Handout.antt =====
-- apps/xdr_rico/app/store.py, `claim_next_action`: what it writes.
use penguard.Prelude.{ℕ, suc, ◌≡◌, ap, String, List, [], ◌∷◌, ◌++◌, true, some, arith, inl, inr}
use penguard.Prelude.Tables.{IsUnique, update-split}
use penguard.Prelude.Sorts.{sorted_by-FirstOf}
use penguard.Xdr.Models.{Action, claimed, is_queued}
use penguard.Xdr.Store.{
  XdrStore, ActionRow, action_key, is_next, queued_rows, claimed_action, claim_first,
  claim_next_action,
}
use penguard.Xdr.Actions.Queue.{waiting, List-cases}

-- The row of an action that is handed out.
abbrev pub handed_out : Action → ActionRow → ActionRow
handed_out a row = record row { status = claimed; payload = a }

-- `a` is the action of a waiting row, and in `left` this row is marked, in its place, while all other
-- rows and tables are those of `s`; one action fewer waits.
pub record Taken (ep : String) (now : ℕ) (s : XdrStore) (a : Action) (left : XdrStore)
    : Type 0 where
  pub row : ActionRow
  pub before : List ActionRow
  pub after : List ActionRow
  pub split : s.actions ≡ before ++ row ∷ after
  pub waits : is_next ep row ≡ true
  pub given : a ≡ claimed_action now row.payload
  pub writes : left ≡ record s { actions = before ++ handed_out a row ∷ after }
  pub fewer : suc (waiting ep left.actions) ≡ waiting ep s.actions

waiting-handed_out :
    (ep : String) (a : Action) (before : List ActionRow) (row : ActionRow) (after : List ActionRow)
    → is_next ep row ≡ true
    → suc (waiting ep (before ++ handed_out a row ∷ after)) ≡ waiting ep (before ++ row ∷ after)
unfolding is_queued
waiting-handed_out ep a [] row after h = ground (arith, h)
waiting-handed_out ep a (r ∷ before) row after h =
    ground (arith, h, waiting-handed_out ep a before row after h)

-- Where no two actions have one id, a claim that gives an action gives that of a waiting row, and
-- writes exactly this row: its status is then claimed and its payload the action that is given. All
-- other rows and tables stay as they are, and one action fewer waits for the endpoint.
pub claim_next-Taken :
    (ep : String) (now : ℕ) (s : XdrStore) (a : Action)
    → IsUnique action_key s.actions
    → (claim_next_action ep now s).0 ≡ some a
    → Taken ep now s a (claim_next_action ep now s).1
unfolding claim_next_action claim_first queued_rows
claim_next-Taken ep now s a unique given = elim (List-cases (queued_rows ep s.actions)) [
  | inl empty ↦ absurd (cc (rw (empty, claim_next_action) at given))
  | inr (row, rest, e) ↦
      let place = sorted_by-FirstOf (λ (r : ActionRow). r.created_at) (is_next ep) s.actions e in
      let got : some (claimed_action now row.payload) ≡ some a =
        rw (e, claim_next_action) at given in
      let same : a ≡ claimed_action now row.payload = cc got in
      let only =
        update-split action_key (handed_out (claimed_action now row.payload)) place.before row
          place.after (rw place.split at (unique row.id)) in
      let writes : (claim_next_action ep now s).1 ≡ record s {
        actions = place.before ++ handed_out (claimed_action now row.payload) row ∷ place.after;
      } =
        rw (e, claim_next_action) (ap (λ w. record s { actions = w }) (rw place.split only)) in
      record {
        row = row;
        before = place.before;
        after = place.after;
        split = place.split;
        waits = place.passes;
        given = same;
        writes = rw same writes;
        fewer =
            rw (writes, place.split)
              (waiting-handed_out ep (claimed_action now row.payload) place.before row place.after
                place.passes);
      }
]
