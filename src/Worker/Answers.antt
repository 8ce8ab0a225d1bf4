-- ===== src/Worker/Answers.antt =====
-- What a computation of the worker that answers has called
-- (services/workflow-worker/src/workflow_worker/service.py).
use mathlib.Core.Path.{subst}
use mathlib.Core.List.{append_assoc, append-nil}
use control_architecture.Base.{
  List, [], ◌∷◌, ◌++◌, ◌≡◌, sym, ap, ◌∙◌, arith, Result, ok, err, Exec, ◌>>=◌, continue,
}
use control_architecture.Worker.Service.{ClientFault, WorkerFault, caught}
use control_architecture.Worker.Resume.{tried}
use control_architecture.Worker.Trace.{Event, logged}

-- Where a computation answers, the answer and the calls that it has made are related.
unfoldable pub Answers :
    {S : Type 0} {A : Type 0}
    → (A → List Event → Type 0)
    → Exec (S × List Event) WorkerFault A
    → Type 0
Answers {S = S} {A = A} Q m =
    (s : S) (log : List Event) (x : A)
    → (m (s, log)).0 ≡ ok x
    → (r : List Event) × ((m (s, log)).1.1 ≡ log ++ r) × Q x r

module _ {S : Type 0} {A : Type 0} (Q : A → List Event → Type 0) where
  pub raise-Answers :
      (m : Exec (S × List Event) WorkerFault A) (e : WorkerFault)
      → ((s : S) (log : List Event) → (m (s, log)).0 ≡ err e)
      → Answers Q m
  unfolding Answers
  raise-Answers m e h s log x k = cc (h s log, k)

  pub pure-Answers :
      (m : Exec (S × List Event) WorkerFault A) (a : A)
      → ((s : S) (log : List Event) → m (s, log) ≡ (ok a, (s, log)))
      → Q a []
      → Answers Q m
  unfolding Answers
  pure-Answers m a h q s log x k =
      let answer : ◌≡◌ {A = Result WorkerFault A} (ok a) (ok x) =
        sym (ap (λ o. o.0) (h s log)) ∙ k in
      let same : a ≡ x = ground (arith, answer) in
      ([], ap (λ o. o.1.1) (h s log) ∙ sym (append-nil log), subst (λ b. Q b []) same q)

  continue-Answers :
      {B : Type 0} (e : Event) (x : Result ClientFault B)
      (f : B → Exec (S × List Event) WorkerFault A)
      → ((b : B) → Answers (λ a r. Q a (e ∷ r)) (f b))
      → (s : S) (log : List Event) (a : A) → (continue (caught x) f (s, log ++ e ∷ [])).0 ≡ ok a
      → (r : List Event) × ((continue (caught x) f (s, log ++ e ∷ [])).1.1 ≡ log ++ r) × Q a r
  unfolding Answers
  continue-Answers e (ok b) f h s log a k =
      let (r, same, q) = h b s (log ++ e ∷ []) a k in (e ∷ r, same ∙ append_assoc log (e ∷ []) r, q)
  continue-Answers e (err x) f h s log a k = cc k

  -- A logged call, and then a computation.
  pub call-Answers :
      {B : Type 0} (e : Event) (m : Exec S ClientFault B)
      (f : B → Exec (S × List Event) WorkerFault A)
      → ((b : B) → Answers (λ a r. Q a (e ∷ r)) (f b))
      → Answers Q (tried (logged e m) >>= f)
  unfolding Answers
  call-Answers e m f h s log a k = continue-Answers e (m s).0 f h (m s).1 log a k

-- Two computations that agree.
pub same-Answers :
    {S : Type 0} {A : Type 0} (Q : A → List Event → Type 0)
    (m n : Exec (S × List Event) WorkerFault A)
    → ((s : S) (log : List Event) → n (s, log) ≡ m (s, log))
    → Answers Q m
    → Answers Q n
unfolding Answers
same-Answers Q m n e h s log x k =
    let (r, same, q) = h s log x (sym (ap (λ o. o.0) (e s log)) ∙ k) in
    (r, ap (λ o. o.1.1) (e s log) ∙ same, q)

pub weaken-Answers :
    {S : Type 0} {A : Type 0} (Q R : A → List Event → Type 0)
    (m : Exec (S × List Event) WorkerFault A)
    → ((x : A) (r : List Event) → Q x r → R x r)
    → Answers Q m
    → Answers R m
unfolding Answers
weaken-Answers Q R m f h s log x k = let (r, same, q) = h s log x k in (r, same, f x r q)
