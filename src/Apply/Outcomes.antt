-- ===== src/Apply/Outcomes.antt =====
-- How an apply ends (src/sdn_controller/core/use_cases/reconcile.py, `_execute_in_span`): its
-- operation, its lock and what it saves.
use nervum.Prelude.{
  if◌then◌else◌, ◌∙◌, ap, sym, subst, ◌≢◌, eq_iff, lookup-insert, lookup-erase, lookup-erase_self,
  IsDict, ◌+◌, ◌++◌, ◌*◌, ℕ, String, true, false, Bool, Option, none, some, [], ◌∷◌, ◌≡◌, refl,
  arith, ◌⊎◌, inl, inr, lookup, insert, insert-IsDict,
}
use nervum.Operation.{network_apply, Operation, OperationStatus, succeeded, failed, accept}
use nervum.Operation.Events.{IsValid, accept-IsValid}
use nervum.Network.{Network}
use nervum.Locks.{Held, try_lock, release}
use nervum.Apply.{
  accepted_operation, lock_key, apply_lock_ttl_seconds, result_of, releasing, when_acquired,
  apply_network,
}
use nervum.Apply.Tasks.{Outcome, returned, raised, domain_error, unexpected}
use nervum.Apply.Setting.{wrap_unexpected, World, Applying, Services, Published}
use nervum.Apply.Conclusions.{Saved, Concluded, attempt-Concluded}
use nervum.Apply.Phases.{phases}

-- A granted lock is free after its owner's release, and no other lock is touched.
lock_freed :
    (at : ℕ) (key owner : String) (ttl : ℕ) (held : Held)
    → IsDict held
    → (try_lock at key owner ttl held).1 ≡ true
    → lookup key (release key owner (try_lock at key owner ttl held).0) ≡ none
unfolding try_lock release
lock_freed at key owner ttl held d granted = ground (
  arith,
  eq_iff key key,
  eq_iff owner owner,
  lookup-insert key key (owner, at + ttl * 1000000) held,
  lookup-erase_self key (insert key (owner, at + ttl * 1000000) held)
      (insert-IsDict key (owner, at + ttl * 1000000) held d),
  lookup-erase_self key held d,
)

lock_apart :
    (at : ℕ) (key owner other : String) (ttl : ℕ) (held : Held)
    → key ≢ other
    → lookup other (release key owner (try_lock at key owner ttl held).0) ≡ lookup other held
unfolding try_lock release
lock_apart at key owner other ttl held ne = ground (
  arith,
  lookup-insert key other (owner, at + ttl * 1000000) held,
  lookup-insert key key (owner, at + ttl * 1000000) held,
  lookup-erase key other (insert key (owner, at + ttl * 1000000) held) ne,
  lookup-erase key other held ne,
  eq_iff key other,
  eq_iff key key,
)

-- What the caller learns of an outcome of the phases: the network and the operation that has
-- succeeded, the network and the operation that has failed with the domain error, or the unexpected
-- exception itself, with which the operation has failed as well.
abbrev pub Tells : Network → Operation → Outcome ℕ → Outcome (Network × Operation) → Type 0
Tells network op (returned n) (returned (m, o)) = (m ≡ network) × (o ≡ op) × (op.status ≡ succeeded)
Tells network op (returned n) (raised _) = ⊥
Tells network op (raised (domain_error error)) (returned (m, o)) =
    (m ≡ network) × (o ≡ op) × (op.status ≡ failed) × (op.error ≡ some error)
Tells network op (raised (domain_error error)) (raised _) = ⊥
Tells network op (raised (unexpected text)) (returned _) = ⊥
Tells network op (raised (unexpected text)) (raised x) =
    (x ≡ unexpected text) × (op.status ≡ failed) × (op.error ≡ some (wrap_unexpected text))

-- The event says that the operation has succeeded, or that it has failed.
abbrev pub Announces : Operation → Published → Type 0
Announces op event =
    ((op.status ≡ succeeded) × (event.event_type ≡ "network.applied") × (event.ok ≡ true))
    ⊎ ((op.status ≡ failed) × (event.event_type ≡ "network.apply_failed") × (event.ok ≡ false))

module _ {Agents : Type 0} (self : Services Agents) (network_id : String) (by : Option String)
    (w : World Agents) where
  abbrev owner : String
  owner = self.new_id w.next_id

  abbrev locking : Held × Bool
  locking = try_lock (self.clock w.ticks) (lock_key network_id) owner apply_lock_ttl_seconds w.held

  -- The world in which the phases start.
  abbrev locked : World Agents
  locked = record w { held = locking.0; ticks = w.ticks + 1 + 1; next_id = w.next_id + 1 }

  abbrev started : Network → Applying Agents
  started network = record {
    world = locked;
    operation = accepted_operation self network network_id owner by (self.clock (w.ticks + 1));
  }

  -- The world after an apply that was granted its lock, and what it told.
  abbrev pub EndsWell : Network → Outcome (Network × Operation) × World Agents → Type 0
  EndsWell network r =
      (op : Operation) × (op.id ≡ owner)
      × IsValid op
      × Tells network op (phases self network (started network)).0 r.0
      × (r.1.operations ≡ insert owner op w.operations)
      × (r.1.networks ≡ w.networks)
      × (r.1.nodes ≡ w.nodes)
      × ((event : Published) × (r.1.outbox ≡ w.outbox ++ event ∷ [])
          × (event.operation_id ≡ owner)
          × Announces op event)
      × (lookup (lock_key network_id) r.1.held ≡ none)
      × ((key : String) → lock_key network_id ≢ key → lookup key r.1.held ≡ lookup key w.held)

  announced :
      (st : OperationStatus) (converged : Bool) (op : Operation) (event : Published)
      → ((st ≡ succeeded) × (converged ≡ true)) ⊎ ((st ≡ failed) × (converged ≡ false))
      → op.status ≡ st
      → event.ok ≡ converged
      → event.event_type ≡ (if converged then "network.applied" else "network.apply_failed")
      → Announces op event
  announced st converged op event (inl (s, c)) status ok type = inl (
    status ∙ s,
    type ∙ ap (λ b. if b then "network.applied" else "network.apply_failed") c,
    ok ∙ c,
  )
  announced st converged op event (inr (s, c)) status ok type = inr (
    status ∙ s,
    type ∙ ap (λ b. if b then "network.applied" else "network.apply_failed") c,
    ok ∙ c,
  )

  settle :
      (network : Network) (st : OperationStatus) (converged : Bool)
      (outcome : Outcome (Network × Operation)) (s : Applying Agents) (phased : Outcome ℕ)
      → phased ≡ (phases self network (started network)).0
      → IsDict w.held
      → locking.1 ≡ true
      → ((st ≡ succeeded) × (converged ≡ true)) ⊎ ((st ≡ failed) × (converged ≡ false))
      → Tells network s.operation phased outcome
      → Saved locked owner st converged s
      → EndsWell network (releasing self (lock_key network_id) owner (outcome, s.world))
  settle network st converged outcome s phased same_phases d granted ended tells
        (status, id, valid, operations, networks, nodes, held, (event, box, same, ok, type)) =
      (
        s.operation,
        id,
        valid,
        subst (λ o. Tells network s.operation o outcome) same_phases tells,
        operations ∙ ap (λ i. insert i s.operation w.operations) id,
        networks,
        nodes,
        (event, box, same ∙ id, announced st converged s.operation event ended status ok type),
        subst (λ h. lookup (lock_key network_id) (release (lock_key network_id) owner h) ≡ none)
            (sym held)
            (lock_freed (self.clock w.ticks) (lock_key network_id) owner apply_lock_ttl_seconds
              w.held d granted),
        λ key ne.
            subst (λ h. lookup key (release (lock_key network_id) owner h) ≡ lookup key w.held)
              (sym held)
              (lock_apart (self.clock w.ticks) (lock_key network_id) owner key
                apply_lock_ttl_seconds w.held ne),
      )

  result-EndsWell :
      (network : Network) (phased : Outcome ℕ) (r : Outcome (Unit {0}) × Applying Agents)
      → phased ≡ (phases self network (started network)).0
      → IsDict w.held
      → locking.1 ≡ true
      → Concluded self locked owner phased r
      → EndsWell network (releasing self (lock_key network_id) owner (result_of self network r))
  result-EndsWell network (returned n) (returned t, s) same d granted saved =
      settle network succeeded true (returned (network, s.operation)) s (returned n) same d granted
        (inl (refl, refl)) (refl, refl, saved.0) saved
  result-EndsWell network (returned n) (raised x, s) same d granted saved = absurd saved
  result-EndsWell network (raised (domain_error error)) (returned t, s) same d granted (saved, e) =
      settle network failed false (returned (network, s.operation)) s _ same d granted
        (inr (refl, refl)) (refl, refl, saved.0, e) saved
  result-EndsWell network (raised (domain_error error)) (raised x, s) same d granted saved =
      absurd saved
  result-EndsWell network (raised (unexpected text)) (returned t, s) same d granted saved =
      absurd saved
  result-EndsWell network (raised (unexpected text)) (raised x, s) same d granted
        (passed, saved, e) =
      settle network failed false (raised x) s _ same d granted (inr (refl, refl))
        (passed, saved.0, e) saved

  -- An apply of a known network that is granted its lock, in a lock store without double keys, ends
  -- its operation with a history that follows the diagram, whatever the agents answer or raise.
  -- Where the phases return, it returns the network and the operation, which has succeeded; where
  -- they raise a domain error, it returns them too, and the operation has failed with that error;
  -- where they raise any other exception, it raises that exception, and the operation has failed
  -- with it wrapped as an internal error. It saves that operation and no other, announces it by one
  -- event, of type `network.applied` where it has succeeded and of type `network.apply_failed`
  -- where it has failed, frees the lock, and leaves the other locks, the networks and the nodes as
  -- they were.
  pub apply_network_ends :
      (network : Network)
      → lookup network_id w.networks ≡ some network
      → IsDict w.held
      → locking.1 ≡ true
      → EndsWell network (apply_network self network_id by w)
  unfolding apply_network when_acquired accept
  apply_network_ends network known d granted =
      rw (known, granted)
        (result-EndsWell network _ _ refl d granted (
          attempt-Concluded self locked owner network (started network) (
            refl,
            (refl, accept-IsValid owner network_apply _ _ by _, (refl, refl, refl, refl, refl)),
          )))
