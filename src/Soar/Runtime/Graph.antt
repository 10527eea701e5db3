-- ===== src/Soar/Runtime/Graph.antt =====
-- The dictionaries that `ordered_nodes` builds, as counts of edges, and what one round of its loop
-- does to them.
use mathlib.Core.List.{foldl}
use penguard.Prelude.{
  ℕ, ◌+◌, ◌<◌, String, List, [], ◌∷◌, ◌++◌, ◌≡◌, refl, true, false, ◌==◌, eq_iff, eq_refl, eqb,
  contains, arith, if◌then◌else◌,
}
use penguard.Prelude.Counts.{count, count-append}
use penguard.Soar.Models.{PlaybookEdge}
use penguard.Soar.Runtime.{Adjacency, Progress, add_edge, adjacency, release}

-- How many edges into `v` come from outside `seen`.
unfoldable pub pending : List String → String → List PlaybookEdge → ℕ
pending seen v [] = 0
pending seen v (edge ∷ edges) =
    (if edge.to_node == v then (if contains edge.from_node seen then 0 else 1) else 0)
    + pending seen v edges

-- How many edges lead from `u` to `v`.
unfoldable pub between : String → String → List PlaybookEdge → ℕ
between u v [] = 0
between u v (edge ∷ edges) =
    (if edge.from_node == u then (if edge.to_node == v then 1 else 0) else 0) + between u v edges

indegree-foldl :
    (g : Adjacency) (edges : List PlaybookEdge) (v : String)
    → (foldl add_edge g edges).indegree v ≡ g.indegree v + pending [] v edges
unfolding pending
indegree-foldl g [] v = omega arith
indegree-foldl g (edge ∷ edges) v =
    ground (arith, indegree-foldl (add_edge g edge) edges v, eq_iff edge.to_node v)

outgoing-foldl :
    (g : Adjacency) (edges : List PlaybookEdge) (u v : String)
    → count v ((foldl add_edge g edges).outgoing u) ≡ count v (g.outgoing u) + between u v edges
unfolding between
outgoing-foldl g [] u v = omega arith
outgoing-foldl g (edge ∷ edges) u v = ground (
  arith,
  outgoing-foldl (add_edge g edge) edges u v,
  eq_iff edge.from_node u,
  count-append v (g.outgoing edge.from_node) (edge.to_node ∷ []),
)

pub indegree-adjacency :
    (edges : List PlaybookEdge) (v : String) → (adjacency edges).indegree v ≡ pending [] v edges
unfolding adjacency
indegree-adjacency edges v =
    omega (arith, indegree-foldl (record { outgoing = λ _. []; indegree = λ _. 0 }) edges v)

pub count-outgoing :
    (edges : List PlaybookEdge) (u v : String)
    → count v ((adjacency edges).outgoing u) ≡ between u v edges
unfolding adjacency
count-outgoing edges u v =
    omega (arith, outgoing-foldl (record { outgoing = λ _. []; indegree = λ _. 0 }) edges u v)

contains-snoc :
    (x u : String) (seen : List String)
    → contains x (seen ++ u ∷ []) ≡ (if u == x then true else contains x seen)
contains-snoc x u [] = ground arith
contains-snoc x u (y ∷ seen) = ground (arith, contains-snoc x u seen)

-- Taking `u` settles the edges that leave it.
pub pending-snoc :
    (seen : List String) (u v : String) (edges : List PlaybookEdge)
    → contains u seen ≡ false
    → pending seen v edges ≡ pending (seen ++ u ∷ []) v edges + between u v edges
unfolding pending between
pending-snoc seen u v [] h = omega arith
pending-snoc seen u v (edge ∷ edges) h = ground (
  arith,
  pending-snoc seen u v edges h,
  contains-snoc edge.from_node u seen,
  eq_iff u edge.from_node,
  eq_iff edge.from_node u,
)

-- The counters and the queue between two rounds, or in one with `left` still to be released: a
-- counter is the number of unsettled edges, and the ids taken or queued are those at zero.
pub record Balanced (ids : List String) (edges : List PlaybookEdge) (seen left : List String)
    (s : Progress) : Type 0 where
  pub counter : (v : String) → s.indegree v ≡ pending seen v edges + count v left
  pub reached :
      (v : String)
      → count v (s.ordered_ids ++ s.queue) ≡ (if eqb (s.indegree v) 0 then count v ids else 0)

module _ (ids : List String) (edges : List PlaybookEdge) (seen : List String) where
  pub release-ordered_ids :
      (left : List String) (s : Progress) → (release left s).ordered_ids ≡ s.ordered_ids
  unfolding release
  release-ordered_ids [] s = refl
  release-ordered_ids (next ∷ left) s = release-ordered_ids left _

  -- Releasing every successor keeps the balance.
  pub release-Balanced :
      (left : List String) (s : Progress)
      → ((v : String) → 0 < count v left → count v ids ≡ 1)
      → Balanced ids edges seen left s
      → Balanced ids edges seen [] (release left s)
  unfolding release
  release-Balanced [] s known b = b
  release-Balanced (next ∷ left) s known b =
      release-Balanced left _ (λ v h. known v (omega arith))
        (record {
          counter = λ v. ground (arith, b.counter v, b.counter next, eq_iff next v, eq_refl next);
          reached = λ v. ground (
            arith,
            b.counter next,
            b.reached v,
            b.reached next,
            known next,
            eq_iff next v,
            eq_refl next,
            count-append v s.ordered_ids s.queue,
            count-append v s.ordered_ids (s.queue ++ next ∷ []),
            count-append v s.queue (next ∷ []),
          );
        })
