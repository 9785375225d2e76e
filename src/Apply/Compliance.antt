-- ===== src/Apply/Compliance.antt =====
-- What it takes for an apply to succeed (src/sdn_controller/core/use_cases/reconcile.py).
use nervum.Prelude.{
  ◌+◌, sym, subst, ℕ, String, Bool, true, false, Option, some, ◌≡◌, refl, lookup, Any,
}
use nervum.Operation.{Operation, succeeded, failed, accepted, verifying, accept, network_apply}
use nervum.Operation.Events.{accept-IsValid}
use nervum.Network.{Network}
use nervum.Planning.{is_in_compliance}
use nervum.Planning.Observed.{ObservedState}
use nervum.Planning.Planner.{peers_of}
use nervum.Apply.{
  lock_key, apply_found, conclude, save_and_publish, attempt, when_acquired, apply_network,
  releasing, result_of,
}
use nervum.Apply.Tasks.{
  consequence, Triple, Ends, Anything, >>-Triple, Outcome, returned, raised, domain_error,
  unexpected,
}
use nervum.Apply.Setting.{World, Applying, Services}
use nervum.Apply.Phases.{phases}
use nervum.Apply.Steps.{InStage, IsOpen}
use nervum.Apply.Stages.{phases-Triple}
use nervum.Apply.Quiet.{move-Quiet}
use nervum.Apply.Planned.{Complies}
use nervum.Apply.Verified.{phases_verified}
use nervum.Apply.Conclusions.{Saved, domain-Triple, unexpected-Triple}

module _ {Agents : Type 0} (self : Services Agents) (start : World Agents) (operation_id : String)
    (network : Network) where
  -- Every node of the network has a saved observed state that complies.
  abbrev AllComply : Applying Agents → Type 0
  AllComply s =
      (nid : String)
      → Any (λ y. y ≡ nid) network.node_ids
      → Complies self start.nodes network s.world.observed nid

  -- A conclusion neither plans nor observes.
  conclude_keeps :
      (n : ℕ) → Triple AllComply (conclude self network (returned n)) (λ _. AllComply) Anything
  unfolding conclude save_and_publish
  conclude_keeps n =
      >>-Triple
        (move-Quiet self
          (λ _ saved.
            (nid : String)
            → Any (λ y. y ≡ nid) network.node_ids
            → Complies self start.nodes network saved nid)
          _ _ _)
        (record { ends = λ s h. h })

  -- Where the operation has succeeded, all comply.
  abbrev Judged : Applying Agents → Type 0
  Judged s = s.operation.status ≡ succeeded → AllComply s

  not-Judged : (s : Applying Agents) → Saved start operation_id failed false s → Judged s
  not-Judged s saved success = cc (saved.0, success)

  conclude-Judged :
      (r : Outcome ℕ × Applying Agents)
      → Ends (λ _. AllComply) Anything r
      → Ends (λ _. InStage start operation_id verifying) (IsOpen start operation_id) r
      → Ends (λ _. Judged) Anything (conclude self network r.0 r.1)
  conclude-Judged (returned n, s) comply stage =
      (consequence (λ t h. h) (λ _ t h success. h) (λ t h. h) (conclude_keeps n)).ends s comply
  conclude-Judged (raised (domain_error error), s) comply stage =
      (consequence (λ t h. h) (λ _. not-Judged) (λ t h. tt)
          (domain-Triple self start operation_id network error)).ends
        s stage
  conclude-Judged (raised (unexpected text), s) comply stage =
      (consequence (λ t h. h) (λ _. not-Judged) (λ t h. tt)
          (unexpected-Triple self start operation_id network text)).ends
        s stage

  attempt-Judged :
      (s : Applying Agents)
      → s.world.nodes ≡ start.nodes
      → InStage start operation_id accepted s
      → Ends (λ _. Judged) Anything (attempt self network s)
  attempt-Judged s same stage =
      conclude-Judged (phases self network s)
        ((phases_verified self start.nodes network).ends s same)
        ((phases-Triple self start operation_id network).ends s stage)

module _ {Agents : Type 0} (self : Services Agents) (start : World Agents) (network : Network) where
  -- What is told of an operation that succeeded, whose result is read back.
  read_result :
      (key owner : String) (r : Outcome (Unit {0}) × Applying Agents) (op : Operation)
      → Ends (λ _. Judged self start owner network) Anything r
      → (releasing self key owner (result_of self network r)).0 ≡ returned (network, op)
      → op.status ≡ succeeded
      → (nid : String) → Any (λ y. y ≡ nid) network.node_ids
      → Complies self start.nodes network
          ((releasing self key owner (result_of self network r)).1.observed)
          nid
  read_result key owner (returned t, s) op judged told success = judged (cc (told, success))
  read_result key owner (raised e, s) op judged told success = cc told

module _ {Agents : Type 0} (self : Services Agents) (network : Network) where
  when_acquired_verifies :
      (network_id owner : String) (by : Option String) (acquired : Bool) (w : World Agents)
      (op : Operation)
      → (when_acquired self network network_id owner by acquired w).0 ≡ returned (network, op)
      → op.status ≡ succeeded
      → (nid : String) → Any (λ y. y ≡ nid) network.node_ids
      → Complies self w.nodes network
          ((when_acquired self network network_id owner by acquired w).1.observed)
          nid
  unfolding when_acquired accept
  when_acquired_verifies network_id owner by false w op told success = cc told
  when_acquired_verifies network_id owner by true w op told success =
      read_result self (record w { ticks = w.ticks + 1 }) network (lock_key network_id) owner _ op
        (attempt-Judged self (record w { ticks = w.ticks + 1 }) owner network _ refl
          (
            refl,
            (refl, accept-IsValid owner network_apply _ _ by _, (refl, refl, refl, refl, refl)),
          ))
        told success

-- An apply of a known network that returns an operation with status `succeeded` has saved, for
-- every node of the network, one in maintenance included, an observed state that the diff engine
-- finds in compliance with the network, whatever the agents answered.
pub apply_network_verifies :
    {Agents : Type 0} (self : Services Agents) (network_id : String) (by : Option String)
    (w : World Agents) (network : Network) (op : Operation)
    → lookup network_id w.networks ≡ some network
    → (apply_network self network_id by w).0 ≡ returned (network, op)
    → op.status ≡ succeeded
    → (nid : String) → Any (λ y. y ≡ nid) network.node_ids
    → (o : ObservedState) × (lookup nid ((apply_network self network_id by w).1.observed) ≡ some o)
      × (is_in_compliance network nid (peers_of w.nodes network.node_ids) o ≡ true)
unfolding apply_network
apply_network_verifies self network_id by w network op known told success =
    subst
      (λ o.
        (apply_found self o network_id by w).0 ≡ returned (network, op)
        → (nid : String) → Any (λ y. y ≡ nid) network.node_ids
        → Complies self w.nodes network ((apply_found self o network_id by w).1.observed) nid)
      (sym known) (λ t. when_acquired_verifies self network network_id _ by _ _ op t success) told
