-- ===== src/Provenance/Repository.antt =====
-- The operations of the provenance service (services/provenance-service/src/provenance_service/
-- repository.py). An operation takes the time and, where it makes an identifier, its random part; it
-- returns its result, or the IntegrityError of its commit, with the database that the commit leaves.
-- Rows are never deleted, so an autoincremented id is one more than the number of rows.
use control_architecture.Base.{
  suc, String, Bool, false, Option, none, some, List, [], ◌∷◌, ◌++◌, ◌==◌, if◌then◌else◌, string_eq,
  Result, ok, err, or_text, find, exists, update, length,
}
use control_architecture.Contracts.Literals.{delegation_status_eq}
use control_architecture.Contracts.Envelopes.{Time}
use control_architecture.Provenance.Models.{
  TaskProvenance, TaskStateTransition, DelegatedWorkItem, ProvenanceDatabase,
  ProvenanceRecordCreateRequest, TaskStateTransitionCreateRequest,
}

pub data ProvenanceFault : Type 0 where
  integrity_error : ProvenanceFault

abbrev pub Outcome : Type 0 → Type 0
Outcome A = Result ProvenanceFault (Option A) × ProvenanceDatabase

abbrev pub has_task : String → TaskProvenance → Bool
has_task id t = t.task_id == id

abbrev same_text : String → Option String → Bool
same_text s none = false
same_text s (some x) = x == s

abbrev pub has_source : String → TaskStateTransition → Bool
has_source id t = same_text id t.source_event_id

abbrev pub has_delegation : String → DelegatedWorkItem → Bool
has_delegation id d = d.delegation_id == id

unfoldable pub get_task_provenance : String → ProvenanceDatabase → Option TaskProvenance
get_task_provenance id d = find (has_task id) d.provenance

unfoldable pub get_state_transition_by_source_event :
    String → ProvenanceDatabase → Option TaskStateTransition
get_state_transition_by_source_event id d = find (has_source id) d.state_history

unfoldable pub get_delegation : String → ProvenanceDatabase → Option DelegatedWorkItem
get_delegation id d = find (has_delegation id) d.delegations

unfoldable pub new_provenance : Time → String → ProvenanceRecordCreateRequest → TaskProvenance
new_provenance now id p = record {
  task_id = id;
  initiated_by = p.initiated_by;
  last_updated_by = or_text p.last_updated_by p.initiated_by;
  policy_context_id = p.policy_context_id;
  trace_id = p.trace_id;
  created_at = now;
  updated_at = now;
}

-- `create_task_provenance`, where the record was not there, or was.
unfoldable pub provenance_lookup :
    Time
    → String
    → ProvenanceRecordCreateRequest
    → Option TaskProvenance
    → ProvenanceDatabase
    → Option TaskProvenance × ProvenanceDatabase
unfolding get_task_provenance new_provenance
provenance_lookup now id p (some t) d = (some t, d)
provenance_lookup now id p none d =
    let d' = record d { provenance = d.provenance ++ new_provenance now id p ∷ [] } in
    (get_task_provenance id d', d')

unfoldable pub create_task_provenance :
    Time
    → String
    → ProvenanceRecordCreateRequest
    → ProvenanceDatabase
    → Option TaskProvenance × ProvenanceDatabase
unfolding provenance_lookup
create_task_provenance now id p d = provenance_lookup now id p (get_task_provenance id d) d

-- `task.last_updated_by = name` on the task's row. A row whose columns keep their values is not
-- updated, so its `updated_at` stays.
abbrev pub updated_by : Time → String → TaskProvenance → TaskProvenance
updated_by now name t = record t {
  last_updated_by = name;
  updated_at = if t.last_updated_by == name then t.updated_at else now;
}

abbrev pub touch : Time → String → String → List TaskProvenance → List TaskProvenance
touch now id name ts = update (has_task id) (updated_by now name) ts

unfoldable pub new_transition :
    Time → String → TaskStateTransitionCreateRequest → ProvenanceDatabase → TaskStateTransition
new_transition now id p d = record {
  id = suc (length d.state_history);
  task_id = id;
  source_event_id = p.source_event_id;
  from_status = p.from_status;
  to_status = p.to_status;
  changed_by = p.changed_by;
  reason = p.reason;
  created_at = now;
}

-- The unique key of the source event, where the column is not null.
abbrev pub source_taken : Option String → ProvenanceDatabase → Bool
source_taken none d = false
source_taken (some s) d = exists (has_source s) d.state_history

-- The rest of `add_state_transition`, once the task was looked up.
unfoldable pub transition_task :
    Time
    → String
    → TaskStateTransitionCreateRequest
    → Option TaskProvenance
    → ProvenanceDatabase
    → Outcome TaskStateTransition
unfolding new_transition
transition_task now id p none d = (ok none, d)
transition_task now id p (some t) d =
    if source_taken p.source_event_id d then (err ProvenanceFault.integrity_error, d) else (
      ok (some (new_transition now id p d)),
      record d {
        provenance = touch now id p.changed_by d.provenance;
        state_history = d.state_history ++ new_transition now id p d ∷ [];
      },
    )

-- The transition that a source event has made already; a missing or empty source is not looked up.
unfoldable pub existing_transition : Option String → ProvenanceDatabase → Option TaskStateTransition
unfolding get_state_transition_by_source_event
existing_transition none d = none
existing_transition (some s) d = if s == "" then none else get_state_transition_by_source_event s d

unfoldable pub transition_existing :
    Time
    → String
    → TaskStateTransitionCreateRequest
    → Option TaskStateTransition
    → ProvenanceDatabase
    → Outcome TaskStateTransition
unfolding transition_task
transition_existing now id p (some t) d = (ok (some t), d)
transition_existing now id p none d = transition_task now id p (get_task_provenance id d) d

unfoldable pub add_state_transition :
    Time
    → String
    → TaskStateTransitionCreateRequest
    → ProvenanceDatabase
    → Outcome TaskStateTransition
unfolding transition_existing existing_transition
add_state_transition now id p d =
    transition_existing now id p (existing_transition p.source_event_id d) d
