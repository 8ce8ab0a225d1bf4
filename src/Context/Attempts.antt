-- ===== src/Context/Attempts.antt =====
-- The history of an event's claims, and what the event's row holds of it
-- (services/context-memory-service/src/context_memory_service/repository.py).
use mathlib.Core.Path.{subst}
use control_architecture.Base.{
  ℕ, suc, ◌+◌, ◌≤◌, String, true, false, Option, none, some, List, [], ◌∷◌, ◌++◌, ◌≡◌, ◌≢◌, ◌⊎◌,
  inl, inr, refl, sym, ◌∙◌, arith, string_eq, if◌then◌else◌, is_in, exists, update, length, All,
  All-append, All-update, All-map, Bool-cases, exists-append, exists-update,
}
use control_architecture.Contracts.Literals.{OutboxStatus}
use control_architecture.Contracts.Envelopes.{Time}
use control_architecture.Context.Models.{
  Task, OutboxEvent, Database, empty_database, TaskCreateRequest, TaskStatePatchRequest,
}
use control_architecture.Context.Repository.{
  Tokens, create_task, new_task, created_event, violates_unique, same_state, has_event_id,
  changed_event, patch_found, patch_lookup, update_task_state, get_task,
}
use control_architecture.Context.Outbox.{
  claimed, completed, failed, selected, event_ids, claim_outbox_events, complete_outbox_event,
  fail_outbox_event, change_found, get_outbox_event,
}
use control_architecture.Context.Calls.{Operation, step, run}
use control_architecture.Context.Leases.{selected-exists, event_ids-claimed}

-- The times of the claims that have returned each event, the latest first.
abbrev pub History : Type 0
History = String → List Time

abbrev note_claim : Time → List String → History → History
note_claim now ids h id = if is_in id ids then now ∷ h id else h id

-- A claim is noted for the events that it returns.
unfoldable noted : Operation → Database → History → History
noted (Operation.claim now limit lease) d h =
    note_claim now (event_ids (claim_outbox_events now limit lease d).0) h
noted _ d h = h

unfoldable note_all : List Operation → Database → History → History
unfolding noted
note_all [] d h = h
note_all (o ∷ r) d h = note_all r (step o d) (noted o d h)

-- The claims that return each event in a run.
unfoldable pub claim_history : List Operation → History
unfolding note_all
claim_history ops = note_all ops empty_database (λ id. [])

-- How many of the operations are claims.
unfoldable pub claims : List Operation → ℕ
claims [] = 0
claims (Operation.claim now limit lease ∷ r) = suc (claims r)
claims (_ ∷ r) = claims r

-- An event in progress holds the time of the last claim that returned it.
abbrev IsLeased : List Time → OutboxEvent → Type 0
IsLeased times e =
    (e.status ≢ OutboxStatus.in_progress)
    ⊎ ((t : Time) × (r : List Time) × (times ≡ t ∷ r) × (e.claimed_at ≡ some t))

-- A row counts the claims that returned its event.
abbrev pub IsRecorded : History → OutboxEvent → Type 0
IsRecorded h e = (e.attempt_count ≡ length (h e.event_id)) × IsLeased (h e.event_id) e

-- A row has what is recorded of it, and an event that is not in the outbox was never returned.
record IsTracked (h : History) (d : Database) : Type 0 where
  rows : All (IsRecorded h) d.outbox
  fresh : (id : String) → exists (has_event_id id) d.outbox ≡ false → h id ≡ []

absent_before :
    (id : String) (xs ys : List OutboxEvent)
    → exists (has_event_id id) (xs ++ ys) ≡ false
    → exists (has_event_id id) xs ≡ false
absent_before id xs ys h = elim (Bool-cases (exists (has_event_id id) xs)) [
  | inl there ↦ cc (h, exists-append (has_event_id id) xs ys there)
  | inr absent ↦ absent
]

module _ (h : History) (d : Database) (k : IsTracked h d) where
  -- A new event, which no claim has returned.
  added :
      (ts : List Task) (e : OutboxEvent)
      → exists (has_event_id e.event_id) d.outbox ≡ false
      → e.attempt_count ≡ 0
      → e.status ≡ OutboxStatus.pending
      → IsTracked h (record { tasks = ts; outbox = d.outbox ++ e ∷ [] })
  added ts e free zero pending = record {
    rows =
        All-append (IsRecorded h) d.outbox (e ∷ []) k.rows
          ((rw (k.fresh e.event_id free) zero, inl (λ q. cc (pending, q))), tt);
    fresh = λ id absent. k.fresh id (absent_before id d.outbox (e ∷ []) absent);
  }

  change-IsTracked :
      (i : String) (f : OutboxEvent → OutboxEvent) (o : Option OutboxEvent)
      → ((e : OutboxEvent) → (f e).event_id ≡ e.event_id)
      → ((e : OutboxEvent) → IsRecorded h e → IsRecorded h (f e))
      → IsTracked h (change_found i f o d).1
  unfolding change_found
  change-IsTracked i f none same keep = k
  change-IsTracked i f (some e) same keep = record {
    rows = All-update (IsRecorded h) (has_event_id i) f d.outbox keep k.rows;
    fresh = λ id absent. k.fresh id (
        sym (exists-update (has_event_id i) (has_event_id id) f d.outbox (λ x. rw (same x) refl))
        ∙ absent);
  }

  create-IsTracked :
      (now : Time) (tokens : Tokens) (p : TaskCreateRequest)
      → IsTracked h (create_task now tokens p d).1
  unfolding create_task violates_unique created_event
  create-IsTracked now tokens p =
      let t = new_task now tokens p in
      let e = created_event now tokens p t in
      elim (Bool-cases (violates_unique d t e)) [
        | inl taken ↦ rw taken k
        | inr free ↦ rw free (
            added (d.tasks ++ t ∷ []) e
              (let absent : exists (has_event_id e.event_id) d.outbox ≡ false =
                  ground (arith, free) in
                absent)
              refl refl)
      ]

  patch-IsTracked :
      (now : Time) (tokens : Tokens) (i : String) (p : TaskStatePatchRequest) (o : Option Task)
      → IsTracked h (patch_lookup now tokens i p o d).1
  unfolding patch_lookup patch_found changed_event
  patch-IsTracked now tokens i p none = k
  patch-IsTracked now tokens i p (some t) =
      let e = changed_event now tokens p t in
      elim (Bool-cases (same_state p t)) [
        | inl same ↦ rw same k
        | inr other ↦ elim (Bool-cases (exists (has_event_id e.event_id) d.outbox)) [
          | inl taken ↦ rw (other, taken) k
          | inr free ↦ rw (other, free) (added _ e free refl refl)
        ]
      ]

claimed_row :
    (now : Time) (ids : List String) (h : History) (x : OutboxEvent)
    → is_in x.event_id ids ≡ true
    → IsRecorded h x
    → IsRecorded (note_claim now ids h) (claimed now x)
claimed_row now ids h x taken k =
    (rw taken (omega (arith, k.0)), inr (now, h x.event_id, rw taken refl, refl))

kept_row :
    (now : Time) (ids : List String) (h : History) (x : OutboxEvent)
    → is_in x.event_id ids ≡ false
    → IsRecorded h x
    → IsRecorded (note_claim now ids h) x
kept_row now ids h x free k = rw free k

claimed_rows :
    (now : Time) (ids : List String) (h : History) (xs : List OutboxEvent)
    → All (IsRecorded h) xs
    → All (IsRecorded (note_claim now ids h)) (update (λ e. is_in e.event_id ids) (claimed now) xs)
unfolding update
claimed_rows now ids h [] k = tt
claimed_rows now ids h (x ∷ xs) k =
    let rest = claimed_rows now ids h xs k.1 in
    elim (Bool-cases (is_in x.event_id ids)) [
      | inl taken ↦ (
        subst (λ b. IsRecorded (note_claim now ids h) (if b then claimed now x else x)) (sym taken)
            (claimed_row now ids h x taken k.0),
        rest,
      )
      | inr free ↦ (
        subst (λ b. IsRecorded (note_claim now ids h) (if b then claimed now x else x)) (sym free)
            (kept_row now ids h x free k.0),
        rest,
      )
    ]

claim-IsTracked :
    (now : Time) (limit lease : ℕ) (h : History) (d : Database)
    → IsTracked h d
    → IsTracked
        (noted (Operation.claim now limit lease) d h)
        (claim_outbox_events now limit lease d).1
unfolding claim_outbox_events noted
claim-IsTracked now limit lease h d k =
    let taken = selected now limit lease d in
    let ids = event_ids taken in
    subst
      (λ returned. IsTracked (note_claim now returned h) (claim_outbox_events now limit lease d).1)
      (sym (event_ids-claimed now taken))
      (record {
        rows = claimed_rows now ids h d.outbox k.rows;
        fresh = λ id absent.
            let gone =
              sym (
                exists-update (λ e. is_in e.event_id ids) (has_event_id id) (claimed now) d.outbox
                  (λ e. refl))
              ∙ absent in
            elim (Bool-cases (is_in id ids)) [
              | inl named ↦ cc (gone, selected-exists now limit lease d id named)
              | inr other ↦ rw other (k.fresh id gone)
            ];
      })

step-IsTracked :
    (o : Operation) (h : History) (d : Database)
    → IsTracked h d
    → IsTracked (noted o d h) (step o d)
unfolding step noted update_task_state complete_outbox_event fail_outbox_event failed
step-IsTracked (Operation.create now tokens p) h d k = create-IsTracked h d k now tokens p
step-IsTracked (Operation.patch now tokens i p) h d k =
    patch-IsTracked h d k now tokens i p (get_task i d)
step-IsTracked (Operation.claim now limit lease) h d k = claim-IsTracked now limit lease h d k
step-IsTracked (Operation.complete now i) h d k =
    change-IsTracked h d k i (completed now) (get_outbox_event i d) (λ e. refl)
      (λ e r. (r.0, inl (λ q. cc q)))
step-IsTracked (Operation.fail now i message) h d k =
    change-IsTracked h d k i (failed now message) (get_outbox_event i d) (λ e. refl)
      (λ e r. (r.0, inl (λ q. cc q)))

run-IsTracked :
    (ops : List Operation) (h : History) (d : Database)
    → IsTracked h d
    → IsTracked (note_all ops d h) (run ops d)
unfolding run note_all
run-IsTracked [] h d k = k
run-IsTracked (o ∷ r) h d k = run-IsTracked r (noted o d h) (step o d) (step-IsTracked o h d k)

-- An operation that is no claim notes nothing, and a claim notes one time at most.
length-note_all :
    (ops : List Operation) (d : Database) (h : History) (id : String)
    → length (note_all ops d h id) ≤ claims ops + length (h id)
unfolding note_all noted claims
length-note_all [] d h id = omega arith
length-note_all (Operation.create now tokens p ∷ r) d h id = length-note_all r _ h id
length-note_all (Operation.patch now tokens i p ∷ r) d h id = length-note_all r _ h id
length-note_all (Operation.claim now limit lease ∷ r) d h id =
    let o = Operation.claim now limit lease in
    let rest = length-note_all r (step o d) (noted o d h) id in ground (arith, rest)
length-note_all (Operation.complete now i ∷ r) d h id = length-note_all r _ h id
length-note_all (Operation.fail now i message ∷ r) d h id = length-note_all r _ h id

-- After any operations an event's count of attempts is the number of the claims that returned it, which
-- is at most the number of all claims, and an event in progress holds the time of the last claim that
-- returned it.
pub run-IsRecorded :
    (ops : List Operation)
    → All
        (λ e. IsRecorded (claim_history ops) e × (e.attempt_count ≤ claims ops))
        (run ops empty_database).outbox
unfolding claim_history
run-IsRecorded ops =
    let t =
      run-IsTracked ops (λ id. []) empty_database (record { rows = tt; fresh = λ id q. refl }) in
    All-map (IsRecorded (claim_history ops)) _ _
      (λ e r. (r, omega (arith, r.0, length-note_all ops empty_database (λ id. []) e.event_id)))
      t.rows
