-- ===== src/Job/Race.antt =====
-- Enqueueing with an idempotency key, alone and against concurrent requests (app/services/job.py).
use plynth.World.{World, next_id}
use plynth.Models.Job.{Job}
use plynth.Job.{enqueue, JobRequest, insert_job, find_for, has_key, find_by_key, new_job}
use plynth.Exec.{ok}
use plynth.Prelude.{
  some, true, inl, inr, refl, List, ◌≡◌, String, ℕ, is_text, Option-cases, arith, ◌++◌, eq_refl,
  ◌∷◌, Option, ap, ◌∙◌,
}

-- A job found by a key, once the table holds it.
enqueue_found :
    (r : JobRequest) (rivals : List Job) (job : Job) (w : World)
    → is_text r.type_ ≡ true
    → find_for r w.jobs ≡ some job
    → enqueue r rivals w ≡ (ok job, w)
unfolding enqueue
enqueue_found r rivals job w typed e = rw (typed, enqueue) (rw e)

-- A retry asks with the same scope, type and key.
abbrev pub SameKey : JobRequest → JobRequest → Type 0
SameKey r r' =
    (r'.product_id ≡ r.product_id)
    × (r'.tenant_id ≡ r.tenant_id)
    × (r'.type_ ≡ r.type_)
    × (r'.idempotency_key ≡ r.idempotency_key)

find_for_same :
    (r r' : JobRequest) (jobs : List Job) → SameKey r r' → find_for r' jobs ≡ find_for r jobs
find_for_same r r' jobs (p, t, ty, k) = λ i. find_by_key (p i) (t i) (ty i) (k i) jobs

new_job-has_key :
    (r : JobRequest) (key : String) (id time : ℕ)
    → r.idempotency_key ≡ some key
    → has_key r.product_id r.tenant_id r.type_ key (new_job id time r) ≡ true
new_job-has_key r key id time e = ground (arith, eq_refl r.type_, eq_refl key)

find_by_key_head :
    (p t : ℕ) (type_ key : String) (o : Option String) (job : Job) (jobs : List Job)
    → o ≡ some key
    → has_key p t type_ key job ≡ true
    → find_by_key p t type_ o (job ∷ jobs) ≡ some job
find_by_key_head p t type_ key o job jobs e h = rw e (rw h)

-- Whatever the race, the job that `enqueue` returns is the one that its key then finds.
insert_job-found :
    (r : JobRequest) (key : String) (rivals : List Job) (w : World)
    → r.idempotency_key ≡ some key
    → (job : Job) × ((insert_job r rivals w).0 ≡ ok job)
      × (find_for r (insert_job r rivals w).1.jobs ≡ some job)
unfolding insert_job
insert_job-found r key rivals w keyed = elim (Option-cases (find_for r (rivals ++ w.jobs))) [
  | inl new ↦
      rw (new, insert_job)
        (
          new_job (next_id w) w.env.now r,
          refl,
          find_by_key_head r.product_id r.tenant_id r.type_ key r.idempotency_key
              (new_job (next_id w) w.env.now r) (rivals ++ w.jobs) keyed
              (new_job-has_key r key (next_id w) w.env.now keyed),
        )
  | inr (job, e) ↦ rw (e, insert_job) (job, refl, e)
]

enqueue-found :
    (r : JobRequest) (key : String) (rivals : List Job) (w : World)
    → r.idempotency_key ≡ some key
    → is_text r.type_ ≡ true
    → (job : Job) × ((enqueue r rivals w).0 ≡ ok job)
      × (find_for r (enqueue r rivals w).1.jobs ≡ some job)
unfolding enqueue
enqueue-found r key rivals w keyed typed = elim (Option-cases (find_for r w.jobs)) [
  | inl new ↦ rw (typed, enqueue) (rw new (insert_job-found r key rivals w keyed))
  | inr (job, e) ↦ rw (typed, enqueue) (rw e (job, refl, e))
]

-- With an idempotency key and a type that is not empty, `enqueue` returns a job, whatever other
-- transactions committed between its look and its insert, and the next request, if it has the same
-- product, tenant, type and key, returns that very job and writes nothing, also where its payload
-- or anything else that it asks for is another.
pub enqueue_twice :
    (r r' : JobRequest) (key : String) (rivals rivals' : List Job) (w : World)
    → r.idempotency_key ≡ some key
    → is_text r.type_ ≡ true
    → SameKey r r'
    → (job : Job) × ((enqueue r rivals w).0 ≡ ok job)
      × (enqueue r' rivals' (enqueue r rivals w).1 ≡ (ok job, (enqueue r rivals w).1))
enqueue_twice r r' key rivals rivals' w keyed typed same =
    let (job, res, e) = enqueue-found r key rivals w keyed typed in
    let w' = (enqueue r rivals w).1 in
    (
      job,
      res,
      enqueue_found r' rivals' job w' (ap is_text same.2 ∙ typed)
          (find_for_same r r' w'.jobs same ∙ e),
    )
