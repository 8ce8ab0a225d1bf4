-- ===== src/Context/Claims.antt =====
-- What a claim returns and what it makes of the outbox (services/context-memory-service/src/
-- context_memory_service/repository.py, claim_outbox_events).
use mathlib.Core.Path.{subst}
use mathlib.Core.List.{Memᴰ}
use control_architecture.Base.{
  ℕ, zero, suc, ◌+◌, ◌≤◌, ◌<◌, String, true, false, some, List, [], ◌∷◌, ◌≡◌, ◌⊎◌, inl, inr, refl,
  sym, ◌∙◌, ap, arith, string_eq, is_in, select, update, map, order_by, length, All, All-map,
  All-select, All-order_by, All-order_by_back, All-zip, All-selected, All-unselected, All-Mem,
  IsSorted, order_by-IsSorted, Bool-cases, Pairwise,
}
use control_architecture.Contracts.Literals.{OutboxStatus}
use control_architecture.Contracts.Envelopes.{Time, seconds}
use control_architecture.Context.Models.{OutboxEvent, Database}
use control_architecture.Context.Outbox.{
  claimable, claimed, order_by_created_at, limited, selected, event_ids, claim_outbox_events,
}
use control_architecture.Context.Leases.{length-selected, All-limited, event_ids-claimed}

-- The event waits to be processed, or its lease of `lease` seconds has run out.
abbrev pub IsDue : Time → ℕ → OutboxEvent → Type 0
IsDue now lease e =
    (e.status ≡ OutboxStatus.pending)
    ⊎ (e.status ≡ OutboxStatus.failed)
    ⊎ ((e.status ≡ OutboxStatus.in_progress)
        × (t : Time) × (e.claimed_at ≡ some t)
        × (t + seconds lease < now))

-- What a claim makes of a row.
abbrev pub IsClaimOf : Time → OutboxEvent → OutboxEvent → Type 0
IsClaimOf now x e =
    (e.event_id ≡ x.event_id)
    × (e.payload ≡ x.payload)
    × (e.status ≡ OutboxStatus.in_progress)
    × (e.claimed_at ≡ some now)
    × (e.attempt_count ≡ x.attempt_count + 1)

-- An event is among those that a claim returned.
abbrev pub IsReturned : List OutboxEvent → OutboxEvent → Type 0
IsReturned taken x = is_in x.event_id (event_ids taken) ≡ true

abbrev created_key : OutboxEvent → ℕ
created_key e = e.created_at

pub record ClaimEffect (now : Time) (limit lease : ℕ) (d : Database) (taken : List OutboxEvent)
    (d' : Database) : Type 0 where
  pub due :
      All (λ e. (x : OutboxEvent) × Memᴰ x d.outbox × IsDue now lease x × IsClaimOf now x e) taken
  pub bounded : length taken ≤ limit
  pub sorted : IsSorted created_key taken
  pub rows :
      Pairwise
        (λ x y.
          ((y ≡ x) × (is_in x.event_id (event_ids taken) ≡ false))
          ⊎ (IsClaimOf now x y × IsReturned taken x))
        d.outbox
        d'.outbox
  pub oldest :
      All
        (λ x.
          (¬ IsDue now lease x)
          ⊎ (IsReturned taken x
              ⊎ ((length taken ≡ limit) × All (λ e. e.created_at ≤ x.created_at) taken)))
        d.outbox
  pub tasks : d'.tasks ≡ d.tasks

module _ (now : Time) (lease : ℕ) (e : OutboxEvent) where
  claimable-IsDue : claimable now lease e ≡ true → IsDue now lease e
  unfolding claimable
  claimable-IsDue h = ground arith

  unclaimable : claimable now lease e ≡ false → ¬ IsDue now lease e
  unfolding claimable
  unclaimable h = λ due. ground arith

-- A sorted list, up to a limit: a row is within, or the limit is reached by rows that are no younger.
limited_oldest :
    (n : ℕ) (xs : List OutboxEvent)
    → IsSorted created_key xs
    → All
        (λ x.
          IsReturned (limited n xs) x
          ⊎ ((length (limited n xs) ≡ n) × All (λ e. e.created_at ≤ x.created_at) (limited n xs)))
        xs
unfolding limited event_ids is_in
limited_oldest n [] h = tt
limited_oldest zero (x ∷ xs) h = (inr (refl, tt), All-map _ _ xs (λ y k. inr (refl, tt)) h.0)
limited_oldest (suc n) (x ∷ xs) h = (
  inl (ground arith),
  All-map _ _ xs
      (λ y k. elim k.1 [
        | inl there ↦ inl (ground (arith, there))
        | inr (full, low) ↦ inr (ap suc full, (k.0, low))
      ])
      (All-zip _ _ xs h.0 (limited_oldest n xs h.1)),
)

limited-IsSorted :
    (n : ℕ) (xs : List OutboxEvent) → IsSorted created_key xs → IsSorted created_key (limited n xs)
unfolding limited
limited-IsSorted zero xs h = tt
limited-IsSorted (suc n) [] h = tt
limited-IsSorted (suc n) (x ∷ xs) h = (All-limited _ n xs h.0, limited-IsSorted n xs h.1)

module _ (now : Time) where
  length-map-claimed : (xs : List OutboxEvent) → length (map (claimed now) xs) ≡ length xs
  length-map-claimed [] = refl
  length-map-claimed (x ∷ xs) = ap suc (length-map-claimed xs)

  All-map-claimed :
      (P : OutboxEvent → Type 0) (xs : List OutboxEvent)
      → All (λ x. P (claimed now x)) xs
      → All P (map (claimed now) xs)
  All-map-claimed P [] h = tt
  All-map-claimed P (x ∷ xs) h = (h.0, All-map-claimed P xs h.1)

  claimed-IsSorted :
      (xs : List OutboxEvent)
      → IsSorted created_key xs
      → IsSorted created_key (map (claimed now) xs)
  claimed-IsSorted [] h = tt
  claimed-IsSorted (x ∷ xs) h = (All-map-claimed _ xs h.0, claimed-IsSorted xs h.1)

  updated_rows :
      (ids : List String) (xs : List OutboxEvent)
      → Pairwise
          (λ x y.
            ((y ≡ x) × (is_in x.event_id ids ≡ false))
            ⊎ (IsClaimOf now x y × (is_in x.event_id ids ≡ true)))
          xs
          (update (λ e. is_in e.event_id ids) (claimed now) xs)
  unfolding update
  updated_rows ids [] = tt
  updated_rows ids (x ∷ xs) =
      let rest = updated_rows ids xs in
      elim (Bool-cases (is_in x.event_id ids)) [
        | inl taken ↦ (inr (rw taken (refl, refl, refl, refl, refl), taken), rest)
        | inr free ↦ (inl (rw free refl, free), rest)
      ]

module _ (now : Time) (limit lease : ℕ) (d : Database) where
  taken : List OutboxEvent
  taken = selected now limit lease d

  taken_rows : All (λ x. Memᴰ x d.outbox × (claimable now lease x ≡ true)) taken
  unfolding taken selected order_by_created_at
  taken_rows = All-limited _ limit _ (
      All-order_by _ _ _ (
        All-zip _ _ _ (All-select _ (claimable now lease) d.outbox (All-Mem d.outbox))
          (All-selected (claimable now lease) d.outbox)))

  taken-IsSorted : IsSorted created_key taken
  unfolding taken selected order_by_created_at
  taken-IsSorted =
      limited-IsSorted limit _
        (order_by-IsSorted created_key (select (claimable now lease) d.outbox))

  taken_oldest :
      All
        (λ x.
          (claimable now lease x ≡ false)
          ⊎ (IsReturned taken x
              ⊎ ((length taken ≡ limit) × All (λ e. e.created_at ≤ x.created_at) taken)))
        d.outbox
  unfolding taken selected order_by_created_at
  taken_oldest =
      let rows = select (claimable now lease) d.outbox in
      All-unselected _ (claimable now lease) d.outbox (
        All-order_by_back created_key _ rows
          (limited_oldest limit (order_by created_key rows) (order_by-IsSorted created_key rows)))

  -- A claim returns rows that are due, oldest first and no more than its limit, with the status, the
  -- time of the claim and one attempt more; in the table it changes these rows and no others, and no task. A row that
  -- is due is returned, unless the limit was reached by rows that are no younger.
  pub claim_effect :
      let (returned, d') = claim_outbox_events now limit lease d in
      ClaimEffect now limit lease d returned d'
  unfolding claim_outbox_events taken
  claim_effect =
      let ids = sym (event_ids-claimed now taken) in
      record {
        due = All-map-claimed now _ taken (
            All-map _ _ taken
              (λ x h. (x, h.0, claimable-IsDue now lease x h.1, (refl, refl, refl, refl, refl)))
              taken_rows);
        bounded = omega (arith, length-map-claimed now taken, length-selected now limit lease d);
        sorted = claimed-IsSorted now taken taken-IsSorted;
        rows =
            subst
              (λ r.
                Pairwise
                  (λ x y.
                    ((y ≡ x) × (is_in x.event_id r ≡ false))
                    ⊎ (IsClaimOf now x y × (is_in x.event_id r ≡ true)))
                  d.outbox
                  (update (λ e. is_in e.event_id (event_ids taken)) (claimed now) d.outbox))
              ids (updated_rows now (event_ids taken) d.outbox);
        oldest =
            All-map _ _ d.outbox
              (λ x h. elim h [
                | inl not_claimable ↦ inl (unclaimable now lease x not_claimable)
                | inr (inl there) ↦ inr (inl (ap (is_in x.event_id) (sym ids) ∙ there))
                | inr (inr (full, low)) ↦
                    inr (inr (length-map-claimed now taken ∙ full, All-map-claimed now _ taken low))
              ])
              taken_oldest;
        tasks = refl;
      }
