-- ===== src/Job/Listing.antt =====
-- What a tenant sees of the queue (app/services/job.py).
use plynth.World.{World}
use plynth.Exec.{ok, ok-injective}
use plynth.Models.Job.{Job, JobStatus}
use plynth.Job.{
  JobRequest, enqueue, insert_job, find_for, clamp_ttl, max_ttl_seconds, is_wanted, insert_latest,
  latest_first, list_jobs, get_job, is_job,
}
use plynth.Prelude.{
  ◌+◌, ◌++◌, is_text, [], ◌∷◌, some, none, true, inl, inr, ℕ, Option, ℤ, ◌≡◌, ◌≤◌, String, List,
  arith, All, select, Bool-cases, refl, ==_iff, and_left, ltb, and_right, length, max, Option-cases,
  min, find?, pos_part, subst, take, All-take, find?-holds, All-map, All-select, length-take_le,
}

clamp_ttl_bounds :
    (requested : Option ℤ) → (1 ≤ clamp_ttl requested) × (clamp_ttl requested ≤ max_ttl_seconds)
unfolding clamp_ttl
clamp_ttl_bounds none = omega arith
clamp_ttl_bounds (some z) = omega arith

-- The job expires between a second and a week of 604,800 seconds after it was queued.
abbrev pub HasLifetime : Job → Type 0
HasLifetime j = (j.queued_at + 1 ≤ j.expires_at) × (j.expires_at ≤ j.queued_at + 604800)

All-append : (P : Job → Type 0) (xs ys : List Job) → All P xs → All P ys → All P (xs ++ ys)
All-append P [] ys h k = k
All-append P (x ∷ xs) ys h k = (h.0, All-append P xs ys h.1 k)

insert_job-HasLifetime :
    (r : JobRequest) (rivals : List Job) (w : World)
    → All HasLifetime (rivals ++ w.jobs)
    → All HasLifetime (insert_job r rivals w).1.jobs
unfolding insert_job
insert_job-HasLifetime r rivals w h = elim (Option-cases (find_for r (rivals ++ w.jobs))) [
  | inl new ↦ rw (new, insert_job) (omega (arith, clamp_ttl_bounds r.ttl_seconds), h)
  | inr (job, e) ↦ rw (e, insert_job) h
]

-- Whatever lifetime a request asks for, a negative one and one of years included, `enqueue` leaves
-- only jobs in the table that expire between a second and a week of 604,800 seconds after they were
-- queued, if all that were there and all that other transactions added do so.
pub enqueue-HasLifetime :
    (r : JobRequest) (rivals : List Job) (w : World)
    → All HasLifetime w.jobs
    → All HasLifetime rivals
    → All HasLifetime (enqueue r rivals w).1.jobs
unfolding enqueue
enqueue-HasLifetime r rivals w h others = elim (Bool-cases (is_text r.type_)) [
  | inl typed ↦ elim (Option-cases (find_for r w.jobs)) [
    | inl new ↦
        rw (typed, enqueue)
          (rw new
            (insert_job-HasLifetime r rivals w (All-append HasLifetime rivals w.jobs others h)))
    | inr (job, e) ↦ rw (typed, enqueue) (rw e h)
  ]
  | inr blank ↦ rw (blank, enqueue) h
]

abbrev pub InScope : ℕ → ℕ → Job → Type 0
InScope product_id tenant_id j = (j.product_id ≡ product_id) × (j.tenant_id ≡ tenant_id)

wanted-InScope :
    (p t : ℕ) (status : Option JobStatus) (type_ reference : Option String) (j : Job)
    → is_wanted p t status type_ reference j ≡ true
    → InScope p t j
wanted-InScope p t status type_ reference j h = (
  (==_iff j.product_id p).0 (and_left _ _ h),
  (==_iff j.tenant_id t).0 (and_left _ _ (and_right _ _ h)),
)

insert_latest-All :
    (P : Job → Type 0) (j : Job) (js : List Job) → P j → All P js → All P (insert_latest j js)
unfolding insert_latest
insert_latest-All P j [] h hs = (h, tt)
insert_latest-All P j (k ∷ ks) h hs = elim (Bool-cases (ltb j.queued_at k.queued_at)) [
  | inl later ↦ rw (later, insert_latest) (hs.0, insert_latest-All P j ks h hs.1)
  | inr first ↦ rw (first, insert_latest) (h, hs)
]

latest_first-All : (P : Job → Type 0) (js : List Job) → All P js → All P (latest_first js)
unfolding latest_first
latest_first-All P [] h = tt
latest_first-All P (j ∷ js) h =
    insert_latest-All P j (latest_first js) h.0 (latest_first-All P js h.1)

-- A list names only jobs of the product and tenant that asked, and 200 at most, whatever the
-- filters and the limit.
pub list_jobs-InScope :
    (p t : ℕ) (status : Option JobStatus) (type_ reference : Option String) (limit : ℤ) (w : World)
    → (js : List Job) × (list_jobs p t status type_ reference limit w ≡ (ok js, w))
      × All (InScope p t) js
      × (length js ≤ 200)
unfolding list_jobs
list_jobs-InScope p t status type_ reference limit w =
    let wanted = is_wanted p t status type_ reference in
    let n = max 1 (min (pos_part limit) 200) in
    let rows = latest_first (select wanted w.jobs) in
    (
      take n rows,
      refl,
      All-take (InScope p t) n rows (
          latest_first-All (InScope p t) (select wanted w.jobs) (
            All-map (λ j. wanted j ≡ true) (InScope p t) (select wanted w.jobs)
              (λ j. wanted-InScope p t status type_ reference j) (All-select wanted w.jobs))),
      omega (arith, length-take_le n rows),
    )

is_job-InScope : (p t i : ℕ) (j : Job) → is_job p t i j ≡ true → InScope p t j × (j.id ≡ i)
is_job-InScope p t i j h = (
  (
    (==_iff j.product_id p).0 (and_left _ _ (and_right _ _ h)),
    (==_iff j.tenant_id t).0 (and_right _ _ (and_right _ _ h)),
  ),
  (==_iff j.id i).0 (and_left _ _ h),
)

-- A job that is read belongs to the product and tenant that asked, and has the identifier asked for.
pub get_job-InScope :
    (p t i : ℕ) (job : Job) (w : World)
    → (get_job p t i w).0 ≡ ok job
    → InScope p t job × (job.id ≡ i)
unfolding get_job
get_job-InScope p t i job w = elim (Option-cases (find? (is_job p t i) w.jobs)) [
  | inl missing ↦ rw (missing, get_job) (λ e. cc)
  | inr (found, e) ↦
      rw (e, get_job)
        (λ same.
          subst (λ j. InScope p t j × (j.id ≡ i)) (ok-injective same)
            (is_job-InScope p t i found (find?-holds (is_job p t i) w.jobs found e)))
]
