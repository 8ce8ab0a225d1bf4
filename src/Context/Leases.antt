-- ===== src/Context/Leases.antt =====
-- The rows that a claim selects (services/context-memory-service/src/
-- context_memory_service/repository.py, claim_outbox_events).
use Prim.Native.Nat.{min}
use control_architecture.Base.{
  All-select, All-map, exists, string_eq, ℕ, zero, suc, true, List, [], ◌∷◌, ◌≡◌, refl, arith,
  select, length, map, All, All-order_by, length-order_by, ◌∙◌, ap, String, sym, string_discrete,
  is_in,
}
use control_architecture.Contracts.Envelopes.{Time}
use control_architecture.Context.Models.{OutboxEvent, Database}
use control_architecture.Context.Repository.{has_event_id}
use control_architecture.Context.Outbox.{
  claimable, claimed, order_by_created_at, limited, selected, event_ids,
}

-- How many rows a claim may take.
abbrev pub claimable_count : Time → ℕ → Database → ℕ
claimable_count now lease d = length (select (claimable now lease) d.outbox)

pub length-limited : (n : ℕ) (xs : List OutboxEvent) → length (limited n xs) ≡ min n (length xs)
unfolding limited
length-limited zero xs = omega arith
length-limited (suc n) [] = omega arith
length-limited (suc n) (x ∷ xs) = omega (arith, length-limited n xs)

pub length-selected :
    (now : Time) (limit lease : ℕ) (d : Database)
    → length (selected now limit lease d) ≡ min limit (claimable_count now lease d)
unfolding selected order_by_created_at
length-selected now limit lease d =
    let rows = select (claimable now lease) d.outbox in
    omega (
      arith,
      length-limited limit (order_by_created_at rows),
      length-order_by (λ (e : OutboxEvent). e.created_at) rows,
    )

module _ {ℓ} (P : OutboxEvent → Type ℓ) where
  pub All-limited : (n : ℕ) (xs : List OutboxEvent) → All P xs → All P (limited n xs)
  unfolding limited
  All-limited zero xs h = tt
  All-limited (suc n) [] h = tt
  All-limited (suc n) (x ∷ xs) h = (h.0, All-limited n xs h.1)

-- What holds of every row holds of those that a claim selects.
pub selected-All :
    (P : OutboxEvent → Type 0) (now : Time) (limit lease : ℕ) (d : Database)
    → All P d.outbox
    → All P (selected now limit lease d)
unfolding selected order_by_created_at
selected-All P now limit lease d h =
    All-limited P limit _ (All-order_by _ P _ (All-select P (claimable now lease) d.outbox h))

pub All-present : (xs : List OutboxEvent) → All (λ e. exists (has_event_id e.event_id) xs ≡ true) xs
unfolding exists
All-present [] = tt
All-present (x ∷ xs) = (ground arith, All-map _ _ xs (λ e h. ground (arith, h)) (All-present xs))

-- An event with the identifier of a row that is there.
present :
    (id : String) (xs ys : List OutboxEvent)
    → All (λ e. exists (has_event_id e.event_id) ys ≡ true) xs
    → is_in id (event_ids xs) ≡ true
    → exists (has_event_id id) ys ≡ true
unfolding event_ids is_in
present id [] ys a h = cc h
present id (x ∷ xs) ys a h = elim (string_discrete x.event_id id) [
  | yes same ↦ ap (λ k. exists (has_event_id k) ys) (sym same) ∙ a.0
  | no other ↦ present id xs ys a.1 (ground (arith, h, other))
]

-- What a claim selects is in the outbox.
pub selected-exists :
    (now : Time) (limit lease : ℕ) (d : Database) (id : String)
    → is_in id (event_ids (selected now limit lease d)) ≡ true
    → exists (has_event_id id) d.outbox ≡ true
selected-exists now limit lease d id =
    present id (selected now limit lease d) d.outbox
      (selected-All _ now limit lease d (All-present d.outbox))

pub event_ids-claimed :
    (now : Time) (xs : List OutboxEvent) → event_ids (map (claimed now) xs) ≡ event_ids xs
unfolding event_ids
event_ids-claimed now [] = refl
event_ids-claimed now (x ∷ xs) = ap (λ r. x.event_id ∷ r) (event_ids-claimed now xs)
