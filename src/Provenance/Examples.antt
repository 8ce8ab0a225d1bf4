-- ===== src/Provenance/Examples.antt =====
-- The provenance database on concrete operations.
use control_architecture.Base.{
  String, Option, none, some, List, [], ◌∷◌, ◌++◌, ◌≡◌, ◌≢◌, refl, ok, ap, false≢true,
  string_discrete, find, exists, ◌==◌, string_eq,
}
use control_architecture.Provenance.Models.{
  TaskProvenance, TaskStateTransition, ProvenanceDatabase, empty_provenance,
  ProvenanceRecordCreateRequest, TaskStateTransitionCreateRequest,
}
use control_architecture.Provenance.Repository.{
  add_state_transition, transition_existing, transition_task, existing_transition, new_transition,
  create_task_provenance, provenance_lookup, get_task_provenance, new_provenance,
  get_state_transition_by_source_event,
}
use control_architecture.Provenance.Calls.{Operation, step, run}
use control_architecture.Provenance.History.{history_appends, IsUnique, run-IsUnique}
use control_architecture.Provenance.Sources.{transition_replays}
use control_architecture.Provenance.Origin.{SameOrigin, origin_kept}

abbrev seed : ProvenanceRecordCreateRequest
seed = record {
  initiated_by = "user.ops";
  last_updated_by = none;
  policy_context_id = none;
  trace_id = some "trace_1";
}

abbrev event_name : String
event_name = "evt_e1"

abbrev no_text : String
no_text = ""

abbrev creation_of : Option String → TaskStateTransitionCreateRequest
creation_of source = record {
  source_event_id = source;
  from_status = none;
  to_status = "received";
  changed_by = "user.ops";
  reason = some "task created";
}

abbrev started : ProvenanceDatabase
started = run (Operation.create 1 "task_1" seed ∷ []) empty_provenance

abbrev day : List Operation
day =
    Operation.create 1 "task_1" seed
    ∷ Operation.transition 2 "task_1" (creation_of (some event_name))
    ∷ Operation.transition 3 "task_1" (creation_of (some event_name))
    ∷ Operation.transition 4 "task_1" (creation_of none)
    ∷ []

abbrev first_transition : TaskStateTransition
first_transition = new_transition 2 "task_1" (creation_of (some event_name)) started

abbrev first_record : TaskProvenance
first_record = new_provenance 1 "task_1" seed

first_added :
    (add_state_transition 2 "task_1" (creation_of (some event_name)) started).0
    ≡ ok (some first_transition)
unfolding run step create_task_provenance provenance_lookup get_task_provenance new_provenance
    add_state_transition transition_existing transition_task existing_transition
    get_state_transition_by_source_event new_transition find exists string_discrete
first_added = refl

named_event : event_name ≢ no_text
unfolding string_discrete
named_event e = false≢true (ap (λ s. s == no_text) e)

record_found : get_task_provenance "task_1" started ≡ some first_record
unfolding run step create_task_provenance provenance_lookup get_task_provenance new_provenance find
    string_discrete
record_found = refl

history_appends_example :
    (r : List TaskStateTransition) × ((run day started).state_history ≡ started.state_history ++ r)
history_appends_example = history_appends day started

run-IsUnique_example : IsUnique (run day empty_provenance)
run-IsUnique_example = run-IsUnique day

transition_replays_example :
    add_state_transition 9 "task_2"
      (creation_of (some event_name))
      (run day (add_state_transition 2 "task_1" (creation_of (some event_name)) started).1)
    ≡ (
      ok (some first_transition),
      run day (add_state_transition 2 "task_1" (creation_of (some event_name)) started).1,
    )
transition_replays_example =
    transition_replays 2 9 "task_1" "task_2" event_name (creation_of (some event_name))
      (creation_of (some event_name)) started day first_transition refl refl named_event first_added

origin_kept_example :
    (u : TaskProvenance) × (create_task_provenance 9 "task_1" seed (run day started)
      ≡ (some u, run day started))
    × SameOrigin first_record u
origin_kept_example = origin_kept day 9 "task_1" seed started first_record record_found
