-- ===== src/MemoryService/References.antt =====
-- The foreign keys of the older memory service: what its rows refer to is there
-- (services/memory-service/src/memory_service/repository.py and models.py).
use control_architecture.Base.{
  String, Bool, true, Option, none, some, List, [], ◌∷◌, ◌++◌, ◌≡◌, refl, ◌∙◌, arith, ◌==◌,
  string_eq, ◌||◌, exists, update, find-holds, find-exists, exists-append, exists-append_last,
  exists-update, All, All-append, All-update, All-map, Bool-cases, inl, inr,
}
use control_architecture.Contracts.Envelopes.{Time}
use control_architecture.Context.Models.{TaskCreateRequest, TaskStatePatchRequest}
use control_architecture.Context.Repository.{Tokens}
use control_architecture.Context.Calls.{Operation}
use control_architecture.MemoryService.Models.{
  MemoryTask, TaskStateHistory, MemoryArtifact, MemoryDelegation, MemoryDatabase, empty_memory,
  MemoryArtifactCreateRequest, MemoryDelegationCreateRequest, MemoryDelegationUpdateRequest,
}
use control_architecture.MemoryService.Repository.{
  has_memory_id, new_memory_task, created_history, get_memory_task, create_memory_task,
  patched_memory, patched_history, same_memory_state, patch_memory, update_memory_state,
}
use control_architecture.MemoryService.Evidence.{
  touched, new_memory_artifact, memory_artifact_task, add_memory_artifact, has_memory_delegation,
  new_memory_delegation, memory_delegation_task, create_memory_delegation,
  updated_memory_delegation, memory_delegation_found, update_memory_delegation,
  get_memory_delegation,
}
use control_architecture.MemoryService.Calls.{Call, memory_step}

unfoldable pub run_memory : List Call → MemoryDatabase → MemoryDatabase
run_memory [] d = d
run_memory (k ∷ r) d = run_memory r (memory_step k d)

abbrev pub IsTask : List MemoryTask → String → Type 0
IsTask ts id = exists (has_memory_id id) ts ≡ true

-- The task that each entry of the history, each artifact and each delegation names is in the table.
pub record IsReferenced (d : MemoryDatabase) : Type 0 where
  pub history : All (λ (h : TaskStateHistory). IsTask d.tasks h.task_id) d.state_history
  pub artifacts : All (λ (a : MemoryArtifact). IsTask d.tasks a.task_id) d.artifacts
  pub delegations : All (λ (w : MemoryDelegation). IsTask d.tasks w.task_id) d.delegations

-- Tasks that keep their identifiers, or get more of them.
Grows : List MemoryTask → List MemoryTask → Type 0
Grows ts us = (id : String) → IsTask ts id → IsTask us id

update-Grows :
    (p : MemoryTask → Bool) (f : MemoryTask → MemoryTask) (ts : List MemoryTask)
    → ((t : MemoryTask) → (f t).task_id ≡ t.task_id)
    → Grows ts (update p f ts)
unfolding Grows
update-Grows p f ts same id h = exists-update p (has_memory_id id) f ts (λ t. rw (same t)) ∙ h

module _ (d : MemoryDatabase) (h : IsReferenced d) (ts : List MemoryTask)
    (g : Grows d.tasks ts) where
  grown : IsReferenced (record d { tasks = ts })
  unfolding Grows
  grown = record {
    history = All-map _ _ d.state_history (λ e k. g e.task_id k) h.history;
    artifacts = All-map _ _ d.artifacts (λ e k. g e.task_id k) h.artifacts;
    delegations = All-map _ _ d.delegations (λ e k. g e.task_id k) h.delegations;
  }

  -- And one row more, of a task that is there.
  with_history :
      (e : TaskStateHistory)
      → IsTask ts e.task_id
      → IsReferenced (record d { tasks = ts; state_history = d.state_history ++ e ∷ [] })
  with_history e k = record {
    history = All-append _ d.state_history (e ∷ []) grown.history (k, tt);
    artifacts = grown.artifacts;
    delegations = grown.delegations;
  }

  with_artifact :
      (e : MemoryArtifact)
      → IsTask ts e.task_id
      → IsReferenced (record d { tasks = ts; artifacts = d.artifacts ++ e ∷ [] })
  with_artifact e k = record {
    history = grown.history;
    artifacts = All-append _ d.artifacts (e ∷ []) grown.artifacts (k, tt);
    delegations = grown.delegations;
  }

  with_delegation :
      (e : MemoryDelegation)
      → IsTask ts e.task_id
      → IsReferenced (record d { tasks = ts; delegations = d.delegations ++ e ∷ [] })
  with_delegation e k = record {
    history = grown.history;
    artifacts = grown.artifacts;
    delegations = All-append _ d.delegations (e ∷ []) grown.delegations (k, tt);
  }

found-IsTask :
    (id : String) (d : MemoryDatabase) (t : MemoryTask)
    → get_memory_task id d ≡ some t
    → IsTask d.tasks t.task_id
unfolding get_memory_task
found-IsTask id d t e =
    let named : t.task_id ≡ id = ground (arith, find-holds (has_memory_id id) d.tasks t e) in
    rw named (find-exists (has_memory_id id) d.tasks t e)

-- A task's evidence sets who has changed it.
touch-Grows :
    (now : Time) (id name : String) (ts : List MemoryTask)
    → Grows ts (update (has_memory_id id) (touched now name) ts)
touch-Grows now id name ts = update-Grows (has_memory_id id) (touched now name) ts (λ t. refl)

patch-Grows :
    (now : Time) (id : String) (p : TaskStatePatchRequest) (ts : List MemoryTask)
    → Grows ts (update (has_memory_id id) (patched_memory now p) ts)
unfolding patched_memory
patch-Grows now id p ts = update-Grows (has_memory_id id) (patched_memory now p) ts (λ t. refl)

append-Grows : (t : MemoryTask) (ts : List MemoryTask) → Grows ts (ts ++ t ∷ [])
unfolding Grows
append-Grows t ts id h = exists-append (has_memory_id id) ts (t ∷ []) h

module _ (d : MemoryDatabase) (h : IsReferenced d) (now : Time) where
  create_references :
      (tokens : Tokens) (p : TaskCreateRequest) → IsReferenced (create_memory_task now tokens p d).1
  unfolding create_memory_task
  create_references tokens p =
      let t = new_memory_task now tokens p in
      elim (Bool-cases (
        exists (has_memory_id t.task_id) d.tasks
        || exists (λ u. u.payment_id == t.payment_id) d.tasks)) [
          | inl taken ↦ rw taken h
          | inr free ↦ rw free (
              with_history d h (d.tasks ++ t ∷ []) (append-Grows t d.tasks)
                (created_history now p t d)
                (exists-append_last (has_memory_id t.task_id) d.tasks t (ground arith)))
        ]

  patch_references :
      (id : String) (p : TaskStatePatchRequest) (o : Option MemoryTask)
      → get_memory_task id d ≡ o
      → IsReferenced (patch_memory now id p o d).1
  unfolding patch_memory
  patch_references id p none e = h
  patch_references id p (some t) e = elim (Bool-cases (same_memory_state p t)) [
    | inl same ↦ rw same h
    | inr other ↦
        let g = patch-Grows now id p d.tasks in
        rw other (
          with_history d h _ g (patched_history now p t d)
            (unfold Grows in g t.task_id (found-IsTask id d t e)))
  ]

  artifact_references :
      (id : String) (p : MemoryArtifactCreateRequest) (o : Option MemoryTask)
      → get_memory_task id d ≡ o
      → IsReferenced (memory_artifact_task now id p o d).1
  unfolding memory_artifact_task new_memory_artifact
  artifact_references id p none e = h
  artifact_references id p (some t) e =
      let g = touch-Grows now id p.created_by d.tasks in
      with_artifact d h _ g (new_memory_artifact now t.task_id p d)
        (unfold Grows in g t.task_id (found-IsTask id d t e))

  delegation_references :
      (token id : String) (p : MemoryDelegationCreateRequest) (o : Option MemoryTask)
      → get_memory_task id d ≡ o
      → IsReferenced (memory_delegation_task now token id p o d).1
  unfolding memory_delegation_task new_memory_delegation
  delegation_references token id p none e = h
  delegation_references token id p (some t) e =
      let w = new_memory_delegation now token t.task_id p in
      let g = touch-Grows now id p.parent_agent_id d.tasks in
      elim (Bool-cases (exists (has_memory_delegation w.delegation_id) d.delegations)) [
        | inl taken ↦ rw taken h
        | inr free ↦
            rw free
              (with_delegation d h _ g w (unfold Grows in g t.task_id (found-IsTask id d t e)))
      ]

  update_references :
      (id : String) (p : MemoryDelegationUpdateRequest) (o : Option MemoryDelegation)
      → IsReferenced (memory_delegation_found now id p o d).1
  unfolding memory_delegation_found updated_memory_delegation
  update_references id p none = h
  update_references id p (some w) =
      let k = grown d h _ (touch-Grows now w.task_id p.updated_by d.tasks) in
      record {
        history = k.history;
        artifacts = k.artifacts;
        delegations =
            All-update _ (has_memory_delegation id) (updated_memory_delegation now p) d.delegations
              (λ x e. e) k.delegations;
      }

step_references : (k : Call) (d : MemoryDatabase) → IsReferenced d → IsReferenced (memory_step k d)
unfolding memory_step update_memory_state add_memory_artifact create_memory_delegation
    update_memory_delegation
step_references (Call.operation (Operation.create now tokens p)) d h =
    create_references d h now tokens p
step_references (Call.operation (Operation.patch now tokens id p)) d h =
    patch_references d h now id p (get_memory_task id d) refl
step_references (Call.operation (Operation.claim now limit lease)) d h = h
step_references (Call.operation (Operation.complete now id)) d h = h
step_references (Call.operation (Operation.fail now id message)) d h = h
step_references (Call.artifact now id p) d h =
    artifact_references d h now id p (get_memory_task id d) refl
step_references (Call.delegate now token id p) d h =
    delegation_references d h now token id p (get_memory_task id d) refl
step_references (Call.update_delegation now id p) d h =
    update_references d h now id p (get_memory_delegation id d)

run_references :
    (calls : List Call) (d : MemoryDatabase) → IsReferenced d → IsReferenced (run_memory calls d)
unfolding run_memory
run_references [] d h = h
run_references (k ∷ r) d h = run_references r (memory_step k d) (step_references k d h)

-- After any calls of the older memory service, the task that an entry of the state history, an artifact
-- or a delegation names is in the table of tasks: no foreign key can be violated.
pub run-IsReferenced : (calls : List Call) → IsReferenced (run_memory calls empty_memory)
run-IsReferenced calls =
    run_references calls empty_memory (record { history = tt; artifacts = tt; delegations = tt })
