-- ===== src/Soar/Runtime/Order.antt =====
-- apps/soar_skipper/app/runtime.py, `ordered_nodes`: the order of its result, by the edges.
use penguard.Prelude.{
  ℕ, zero, suc, ◌+◌, ◌≤◌, ◌<◌, String, List, [], ◌∷◌, ◌++◌, ◌≡◌, refl, sym, subst, ap, ◌∙◌, false,
  eq_refl, eqb, contains, arith, if◌then◌else◌, append_assoc, append-nil, length, length-append,
}
use penguard.Prelude.Counts.{count, count-append, contains_of_absent, length_le_of_count}
use penguard.Soar.Models.{PlaybookEdge}
use penguard.Soar.Runtime.{Progress, take_node, drain_queue}
use penguard.Soar.Runtime.Graph.{
  pending, between, pending-snoc, Balanced, release-ordered_ids, release-Balanced,
}

-- Every id of `ids` stands after the sources of all edges into it, `seen` standing before them all.
abbrev pub Forward : List PlaybookEdge → List String → List String → Type 0
Forward edges seen [] = Unit
Forward edges seen (id ∷ ids) = (pending seen id edges ≡ 0) × Forward edges (seen ++ id ∷ []) ids

-- No id twice, and every edge ends at an id.
pub record IsGraph (ids : List String) (edges : List PlaybookEdge) : Type 0 where
  pub once : (v : String) → count v ids ≤ 1
  pub ends : (u v : String) → 0 < between u v edges → count v ids ≡ 1

-- What the loop leaves: it ends by its test, in balance, and what it adds respects the edges.
pub record Settled (ids : List String) (edges : List PlaybookEdge) (before : List String)
    (s : Progress) : Type 0 where
  pub added : List String
  pub grown : s.ordered_ids ≡ before ++ added
  pub forward : Forward edges before added
  pub ended : s.queue ≡ []
  pub balanced : Balanced ids edges s.ordered_ids [] s

module _ (ids : List String) (edges : List PlaybookEdge) (successors : String → List String)
    (graph : IsGraph ids edges)
    (leaving : (u v : String) → count v (successors u) ≡ between u v edges) where
  -- The first of the queue has no unsettled edge, was not taken before, and is an id.
  head_of_queue :
      (id : String) (rest : List String) (s : Progress)
      → s.queue ≡ id ∷ rest
      → Balanced ids edges s.ordered_ids [] s
      → (s.indegree id ≡ 0) × (count id s.ordered_ids ≡ 0)
  head_of_queue id rest s q b =
      let whole : count id (s.ordered_ids ++ id ∷ rest)
          ≡ (if eqb (s.indegree id) 0 then count id ids else 0) =
        rw (← q) (b.reached id) in
      ground (arith, whole, graph.once id, eq_refl id, count-append id s.ordered_ids (id ∷ rest))

  -- One round keeps the balance.
  take_node-Balanced :
      (id : String) (rest : List String) (s : Progress)
      → s.queue ≡ id ∷ rest
      → Balanced ids edges s.ordered_ids [] s
      → Balanced ids edges (s.ordered_ids ++ id ∷ []) [] (take_node successors id rest s)
  unfolding take_node
  take_node-Balanced id rest s q b =
      let fresh : contains id s.ordered_ids ≡ false =
        contains_of_absent id s.ordered_ids (head_of_queue id rest s q b).1 in
      release-Balanced ids edges (s.ordered_ids ++ id ∷ []) (successors id) _
        (λ v h. graph.ends id v (omega (arith, leaving id v)))
        (record {
          counter = λ v.
              omega (arith, b.counter v, pending-snoc s.ordered_ids id v edges fresh, leaving id v);
          reached = λ v. rw (append_assoc s.ordered_ids (id ∷ []) rest, ← q) (b.reached v);
        })

  ordered_ids-take_node :
      (id : String) (rest : List String) (s : Progress)
      → (take_node successors id rest s).ordered_ids ≡ s.ordered_ids ++ id ∷ []
  unfolding take_node
  ordered_ids-take_node id rest s = release-ordered_ids ids edges [] (successors id) _

  -- What is taken or queued is no longer than the playbook.
  reached-le :
      (s : Progress)
      → Balanced ids edges s.ordered_ids [] s
      → length (s.ordered_ids ++ s.queue) ≤ length ids
  reached-le s b =
      length_le_of_count (s.ordered_ids ++ s.queue) ids (λ v. ground (arith, b.reached v))

  -- With a round for every id the loop settles.
  pub drain_queue-Settled :
      (fuel : ℕ) (queue : List String) (s : Progress)
      → s.queue ≡ queue
      → Balanced ids edges s.ordered_ids [] s
      → length ids ≤ length s.ordered_ids + fuel
      → Settled ids edges s.ordered_ids (drain_queue successors fuel queue s)
  unfolding drain_queue
  drain_queue-Settled fuel [] s q b h = record {
    added = [];
    grown = sym (append-nil s.ordered_ids);
    forward = tt;
    ended = q;
    balanced = b;
  }
  drain_queue-Settled zero (id ∷ rest) s q b h = absurd (
      omega
        (arith, reached-le s b, length-append s.ordered_ids s.queue, ap (length {A = String}) q))
  drain_queue-Settled (suc fuel) (id ∷ rest) s q b h =
      let s' = take_node successors id rest s in
      let taken : s'.ordered_ids ≡ s.ordered_ids ++ id ∷ [] = ordered_ids-take_node id rest s in
      let b' : Balanced ids edges s'.ordered_ids [] s' =
        subst (λ o. Balanced ids edges o [] s') (sym taken) (take_node-Balanced id rest s q b) in
      let room : length ids ≤ length s'.ordered_ids + fuel =
        rw taken (omega (arith, length-append s.ordered_ids (id ∷ []))) in
      let ih : Settled ids edges s'.ordered_ids (drain_queue successors fuel s'.queue s') =
        drain_queue-Settled fuel s'.queue s' refl b' room in
      record {
        added = id ∷ ih.added;
        grown = ih.grown ∙ (rw taken (append_assoc s.ordered_ids (id ∷ []) ih.added));
        forward =
            (omega (arith, b.counter id, head_of_queue id rest s q b), rw taken at ih.forward);
        ended = ih.ended;
        balanced = ih.balanced;
      }
