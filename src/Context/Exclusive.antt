-- ===== src/Context/Exclusive.antt =====
-- How long a claim keeps its events from other claims, whatever happens in between
-- (services/context-memory-service/src/context_memory_service/repository.py).
use control_architecture.Base.{
  ℕ, ◌+◌, ◌≤◌, String, Bool, true, false, Option, none, some, List, [], ◌∷◌, ◌++◌, ◌≡◌, ◌≢◌, ◌⊎◌,
  inl, inr, refl, sym, ◌∙◌, ap, arith, string_eq, string_discrete, is_in, exists, select, update,
  All, All-append, All-order_by, All-update_where, Bool-cases, exists-append, exists-update,
  All-select_cons,
}
use control_architecture.Contracts.Literals.{OutboxStatus}
use control_architecture.Contracts.Envelopes.{Time, seconds}
use control_architecture.Context.Models.{
  Task, OutboxEvent, Database, TaskCreateRequest, TaskStatePatchRequest,
}
use control_architecture.Context.Repository.{
  Tokens, create_task, new_task, created_event, violates_unique, same_state, has_event_id,
  changed_event, patch_found, patch_lookup, update_task_state, get_task,
}
use control_architecture.Context.Outbox.{
  claimable, claimed, completed, failed, order_by_created_at, selected, event_ids,
  claim_outbox_events, complete_outbox_event, fail_outbox_event, change_found, get_outbox_event,
}
use control_architecture.Context.Calls.{Operation, step, run}
use control_architecture.Context.Leases.{All-limited, selected-exists, event_ids-claimed}

module _ (now : Time) (id : String) where
  -- The event is completed, or in progress since `now`.
  IsHeld : OutboxEvent → Type 0
  IsHeld e =
      (e.status ≡ OutboxStatus.completed)
      ⊎ ((e.status ≡ OutboxStatus.in_progress) × (e.claimed_at ≡ some now))

  -- A row of another event, or one that is held.
  IsOtherOrHeld : OutboxEvent → Type 0
  IsOtherOrHeld e = (e.event_id ≢ id) ⊎ IsHeld e

  unclaimable :
      (later : Time) (lease : ℕ) (e : OutboxEvent)
      → later ≤ now + seconds lease
      → IsHeld e
      → claimable later lease e ≡ false
  unfolding claimable IsHeld
  unclaimable later lease e h (inl s) = ground arith
  unclaimable later lease e h (inr (s, c)) = ground arith

  IsOther : OutboxEvent → Type 0
  IsOther e = e.event_id ≢ id

  -- The rows that a claim may take are other events.
  claimable-IsOther :
      (later : Time) (lease : ℕ) (xs : List OutboxEvent)
      → later ≤ now + seconds lease
      → All IsOtherOrHeld xs
      → All IsOther (select (claimable later lease) xs)
  unfolding IsOtherOrHeld IsOther
  claimable-IsOther later lease [] h k = unfold select in tt
  claimable-IsOther later lease (x ∷ xs) h k =
      All-select_cons IsOther (claimable later lease) x xs
        (λ may. elim k.0 [
          | inl other ↦ other
          | inr held ↦ λ e. cc (may, unclaimable later lease x h held)
        ])
        (claimable-IsOther later lease xs h k.1)

  taken-IsOther :
      (later : Time) (limit lease : ℕ) (d : Database)
      → later ≤ now + seconds lease
      → All IsOtherOrHeld d.outbox
      → All IsOther (selected later limit lease d)
  unfolding selected order_by_created_at
  taken-IsOther later limit lease d h k =
      All-limited IsOther limit _
        (All-order_by _ IsOther _ (claimable-IsOther later lease d.outbox h k))

  others_absent : (xs : List OutboxEvent) → All IsOther xs → is_in id (event_ids xs) ≡ false
  unfolding event_ids is_in IsOther
  others_absent [] h = refl
  others_absent (x ∷ xs) h =
      let rest = others_absent xs h.1 in
      elim (string_discrete x.event_id id) [
        | yes same ↦ elim (h.0 same) [ ]
        | no other ↦ ground (arith, rest)
      ]

  -- A claim in time takes no row of the event.
  claim_misses :
      (later : Time) (limit lease : ℕ) (d : Database)
      → later ≤ now + seconds lease
      → All IsOtherOrHeld d.outbox
      → is_in id (event_ids (selected later limit lease d)) ≡ false
  claim_misses later limit lease d h k = others_absent _ (taken-IsOther later limit lease d h k)

  -- The event is in the outbox, and held.
  record IsKept (d : Database) : Type 0 where
    there : exists (has_event_id id) d.outbox ≡ true
    rows : All IsOtherOrHeld d.outbox

  added :
      (d : Database) (h : IsKept d) (ts : List Task) (e : OutboxEvent)
      → exists (has_event_id e.event_id) d.outbox ≡ false
      → IsKept (record { tasks = ts; outbox = d.outbox ++ e ∷ [] })
  unfolding IsOtherOrHeld
  added d h ts e free = record {
    there = exists-append (has_event_id id) d.outbox (e ∷ []) h.there;
    rows =
        All-append IsOtherOrHeld d.outbox (e ∷ []) h.rows
          (inl (λ q. cc (ap (λ k. exists (has_event_id k) d.outbox) q, h.there, free)), tt);
  }

  changed_rows :
      (d : Database) (h : IsKept d) (q : OutboxEvent → Bool) (f : OutboxEvent → OutboxEvent)
      → ((e : OutboxEvent) → (f e).event_id ≡ e.event_id)
      → ((e : OutboxEvent) → q e ≡ true → IsOtherOrHeld (f e))
      → IsKept (record d { outbox = update q f d.outbox })
  changed_rows d h q f same k = record {
    there = exists-update q (has_event_id id) f d.outbox (λ e. rw (same e)) ∙ h.there;
    rows = All-update_where IsOtherOrHeld q f d.outbox k h.rows;
  }

  change-IsKept :
      (d : Database) (h : IsKept d) (i : String) (f : OutboxEvent → OutboxEvent)
      (o : Option OutboxEvent)
      → ((e : OutboxEvent) → (f e).event_id ≡ e.event_id)
      → ((e : OutboxEvent) → has_event_id i e ≡ true → IsOtherOrHeld (f e))
      → IsKept (change_found i f o d).1
  unfolding change_found
  change-IsKept d h i f none same k = h
  change-IsKept d h i f (some e) same k = changed_rows d h (has_event_id i) f same k

  claim-IsKept :
      (d : Database) (h : IsKept d) (later : Time) (limit lease : ℕ)
      → later ≤ now + seconds lease
      → IsKept (claim_outbox_events later limit lease d).1
  unfolding claim_outbox_events IsOtherOrHeld
  claim-IsKept d h later limit lease l =
      let ids = event_ids (selected later limit lease d) in
      let missed = claim_misses later limit lease d l h.rows in
      changed_rows d h (λ e. is_in e.event_id ids) (claimed later) (λ e. refl)
        (λ e t. inl (λ q. cc (q, t, missed)))

  create-IsKept :
      (d : Database) (h : IsKept d) (t : Time) (tokens : Tokens) (p : TaskCreateRequest)
      → IsKept (create_task t tokens p d).1
  unfolding create_task violates_unique
  create-IsKept d h t tokens p =
      let u = new_task t tokens p in
      let e = created_event t tokens p u in
      elim (Bool-cases (violates_unique d u e)) [
        | inl taken ↦ rw taken h
        | inr free ↦ rw free (
            added d h (d.tasks ++ u ∷ []) e (
              let fresh : exists (has_event_id e.event_id) d.outbox ≡ false =
                ground (arith, free) in
              fresh))
      ]

  patch-IsKept :
      (d : Database) (h : IsKept d) (t : Time) (tokens : Tokens) (i : String)
      (p : TaskStatePatchRequest) (o : Option Task)
      → IsKept (patch_lookup t tokens i p o d).1
  unfolding patch_lookup patch_found
  patch-IsKept d h t tokens i p none = h
  patch-IsKept d h t tokens i p (some u) =
      let e = changed_event t tokens p u in
      elim (Bool-cases (same_state p u)) [
        | inl same ↦ rw same h
        | inr other ↦ elim (Bool-cases (exists (has_event_id e.event_id) d.outbox)) [
          | inl taken ↦ rw (other, taken) h
          | inr free ↦ rw (other, free) (added d h _ e free)
        ]
      ]

  -- An operation that leaves the claim alone: a claim in time, or no failure of the event.
  abbrev pub Leaves : Operation → Type 0
  Leaves (Operation.claim later limit lease) = later ≤ now + seconds lease
  Leaves (Operation.fail t i message) = i ≢ id
  Leaves _ = Unit

  step-IsKept : (o : Operation) (d : Database) → Leaves o → IsKept d → IsKept (step o d)
  unfolding step update_task_state complete_outbox_event fail_outbox_event IsOtherOrHeld IsHeld
      failed
  step-IsKept (Operation.create t tokens p) d l h = create-IsKept d h t tokens p
  step-IsKept (Operation.patch t tokens i p) d l h = patch-IsKept d h t tokens i p (get_task i d)
  step-IsKept (Operation.claim later limit lease) d l h = claim-IsKept d h later limit lease l
  step-IsKept (Operation.complete t i) d l h =
      change-IsKept d h i (completed t) (get_outbox_event i d) (λ e. refl) (λ e q. inr (inl refl))
  step-IsKept (Operation.fail t i message) d l h =
      change-IsKept d h i (failed t message) (get_outbox_event i d) (λ e. refl)
        (λ e q. inl (λ s. l (let named : e.event_id ≡ i = ground (arith, q) in sym named ∙ s)))

  run-IsKept :
      (ops : List Operation) (d : Database) → All Leaves ops → IsKept d → IsKept (run ops d)
  unfolding run
  run-IsKept [] d l h = h
  run-IsKept (o ∷ r) d l h = run-IsKept r (step o d) l.1 (step-IsKept o d l.0 h)

  claimed_rows :
      (ids : List String) (xs : List OutboxEvent)
      → is_in id ids ≡ true
      → All IsOtherOrHeld (update (λ e. is_in e.event_id ids) (claimed now) xs)
  unfolding update IsOtherOrHeld IsHeld
  claimed_rows ids [] h = tt
  claimed_rows ids (x ∷ xs) h =
      let rest = claimed_rows ids xs h in
      elim (Bool-cases (is_in x.event_id ids)) [
        | inl taken ↦ rw taken (inr (inr (refl, refl)), rest)
        | inr free ↦ rw free (inl (λ q. cc (q, free, h)), rest)
      ]

module _ (now : Time) (limit lease : ℕ) (d : Database) (id : String) where
  first_claim :
      is_in id (event_ids (claim_outbox_events now limit lease d).0) ≡ true
      → IsKept now id (claim_outbox_events now limit lease d).1
  unfolding claim_outbox_events
  first_claim h =
      let taken = selected now limit lease d in
      let ids = event_ids taken in
      let named : is_in id ids ≡ true = rw event_ids-claimed at h in
      let there = selected-exists now limit lease d id named in
      record {
        there =
            exists-update (λ e. is_in e.event_id ids) (has_event_id id) (claimed now) d.outbox
              (λ e. refl)
            ∙ there;
        rows = claimed_rows now id ids d.outbox named;
      }

  -- An event that a claim returns is not returned by a claim whose lease, counted from the first
  -- claim, has not run out, whatever happens in between: tasks that are created and patched,
  -- completions, failures of other events, and other claims whose lease has not run out.
  pub claims_exclusive :
      (between : List Operation) (later : Time) (limit' lease' : ℕ)
      → All (Leaves now id) between
      → later ≤ now + seconds lease'
      → is_in id (event_ids (claim_outbox_events now limit lease d).0) ≡ true
      → is_in id (
          event_ids
            (claim_outbox_events later limit' lease'
              (run between (claim_outbox_events now limit lease d).1)).0)
        ≡ false
  claims_exclusive between later limit' lease' l h k =
      let start = (claim_outbox_events now limit lease d).1 in
      let kept = run-IsKept now id between start l (first_claim k) in
      unfold claim_outbox_events in
      rw (event_ids-claimed later (selected later limit' lease' (run between start)))
        (claim_misses now id later limit' lease' (run between start) h kept.rows)
