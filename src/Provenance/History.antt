-- ===== src/Provenance/History.antt =====
-- The state history of the provenance service over sequences of operations (services/
-- provenance-service/src/provenance_service/repository.py, add_state_transition).
use mathlib.Core.List.{append_assoc, append-nil}
use control_architecture.Base.{
  ◌≤◌, String, false, Option, none, some, List, [], ◌∷◌, ◌++◌, ◌≡◌, refl, sym, ◌∙◌, arith,
  Bool-cases, Option-cases, inl, inr, ap, count, count-append, exists-count, string_eq,
  string_discrete,
}
use control_architecture.Contracts.Envelopes.{Time}
use control_architecture.Provenance.Models.{
  TaskProvenance, TaskStateTransition, ProvenanceDatabase, empty_provenance,
  TaskStateTransitionCreateRequest,
}
use control_architecture.Provenance.Repository.{
  create_task_provenance, provenance_lookup, get_task_provenance, add_state_transition,
  transition_existing, transition_task, existing_transition, source_taken, has_source,
  new_transition, get_delegation,
}
use control_architecture.Provenance.Evidence.{
  add_artifact, artifact_task, create_delegation, delegation_task, update_delegation,
  delegation_found,
}
use control_architecture.Provenance.Calls.{Operation, step, run, run_induction}

-- What an operation does to the state history: nothing, or it appends one transition, of a source
-- that was not there.
pub data Effect (d d' : ProvenanceDatabase) : Type 0 where
  kept : d'.state_history ≡ d.state_history → Effect d d'
  added :
      (t : TaskStateTransition)
      → source_taken t.source_event_id d ≡ false
      → d'.state_history ≡ d.state_history ++ t ∷ []
      → Effect d d'

task-Effect :
    (now : Time) (id : String) (p : TaskStateTransitionCreateRequest) (o : Option TaskProvenance)
    (d : ProvenanceDatabase)
    → Effect d (transition_task now id p o d).1
unfolding transition_task new_transition
task-Effect now id p none d = Effect.kept refl
task-Effect now id p (some t) d = elim (Bool-cases (source_taken p.source_event_id d)) [
  | inl taken ↦ Effect.kept (ground arith)
  | inr free ↦ Effect.added (new_transition now id p d) free (ground arith)
]

existing-Effect :
    (now : Time) (id : String) (p : TaskStateTransitionCreateRequest)
    (o : Option TaskStateTransition) (d : ProvenanceDatabase)
    → Effect d (transition_existing now id p o d).1
unfolding transition_existing
existing-Effect now id p (some t) d = Effect.kept refl
existing-Effect now id p none d = task-Effect now id p (get_task_provenance id d) d

step-Effect : (o : Operation) (d : ProvenanceDatabase) → Effect d (step o d)
unfolding step create_task_provenance add_state_transition add_artifact create_delegation
    update_delegation
step-Effect (Operation.create now id p) d = elim (Option-cases (get_task_provenance id d)) [
  | inl e ↦ Effect.kept (unfold provenance_lookup in ground arith)
  | inr t ↦ Effect.kept (unfold provenance_lookup in ground (arith, t.1))
]
step-Effect (Operation.transition now id p) d =
    existing-Effect now id p (existing_transition p.source_event_id d) d
step-Effect (Operation.artifact now id p) d = elim (Option-cases (get_task_provenance id d)) [
  | inl e ↦ Effect.kept (unfold artifact_task in ground arith)
  | inr t ↦ Effect.kept (unfold artifact_task in ground (arith, t.1))
]
step-Effect (Operation.delegate now token id p) d = elim (Option-cases (get_task_provenance id d)) [
  | inl e ↦ Effect.kept (unfold delegation_task in ground arith)
  | inr t ↦ Effect.kept (unfold delegation_task in ground (arith, t.1))
]
step-Effect (Operation.update now id p) d = elim (Option-cases (get_delegation id d)) [
  | inl e ↦ Effect.kept (unfold delegation_found in ground arith)
  | inr t ↦ Effect.kept (unfold delegation_found in ground (arith, t.1))
]

-- Whatever operations follow, the state history keeps its transitions and their order: it is only
-- appended to.
pub history_appends :
    (ops : List Operation) (d : ProvenanceDatabase)
    → (r : List TaskStateTransition) × ((run ops d).state_history ≡ d.state_history ++ r)
unfolding run
history_appends [] d = ([], sym (append-nil d.state_history))
history_appends (o ∷ ops) d =
    let (r, later) = history_appends ops (step o d) in
    elim (step-Effect o d) [
      | kept e ↦ (r, later ∙ ap (λ xs. xs ++ r) e)
      | added t free e ↦
          (t ∷ r, later ∙ ap (λ xs. xs ++ r) e ∙ append_assoc d.state_history (t ∷ []) r)
    ]

-- No source event has made two transitions.
pub record IsUnique (d : ProvenanceDatabase) : Type 0 where
  pub at_source : (s : String) → count (has_source s) d.state_history ≤ 1

count_one :
    (s : String) (t : TaskStateTransition) (d : ProvenanceDatabase)
    → source_taken t.source_event_id d ≡ false
    → count (has_source s) d.state_history ≤ 1
    → count (has_source s) (d.state_history ++ t ∷ []) ≤ 1
unfolding count
count_one s t d free h = elim (Option-cases t.source_event_id) [
  | inl e ↦ ground (arith, count-append (has_source s) d.state_history (t ∷ []))
  | inr (x, e) ↦ elim (string_discrete x s) [
    | yes same ↦ ground (
      arith,
      count-append (has_source s) d.state_history (t ∷ []),
      exists-count (has_source s) d.state_history (ground (arith, same)),
    )
    | no other ↦ ground (arith, count-append (has_source s) d.state_history (t ∷ []))
  ]
]

pub step-IsUnique : (o : Operation) (d : ProvenanceDatabase) → IsUnique d → IsUnique (step o d)
step-IsUnique o d h = elim (step-Effect o d) [
  | kept e ↦ record { at_source = λ s. rw e (h.at_source s) }
  | added t free e ↦ record { at_source = λ s. rw e (count_one s t d free (h.at_source s)) }
]

pub empty-IsUnique : IsUnique empty_provenance
unfolding count
empty-IsUnique = record { at_source = λ s. omega arith }

-- After any operations on an empty database, no source event has more than one transition.
pub run-IsUnique : (ops : List Operation) → IsUnique (run ops empty_provenance)
run-IsUnique ops = run_induction IsUnique step-IsUnique ops empty_provenance empty-IsUnique
