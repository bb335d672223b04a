-- ===== src/Job.antt =====
-- app/services/job.py: the queue of background jobs of a tenant.
pub mod Lifecycle
pub mod Race
pub mod Listing
use plynth.Audit.{record_entry, event}
use plynth.World.{World}
use plynth.Models.Job.{JobStatus, Job, is_terminal}
use plynth.Exec.{
  ok, Action, ◌>>=◌, ◌>>◌, or_raise, gets, new_id, raise_if, not_found, pure, now, modify, conflict,
  validation_failed,
}
use plynth.Prelude.{
  [], ◌∷◌, some, none, true, ℕ, Option, List, ℤ, String, ◌+◌, Bool, if◌then◌else◌, max, ◌==◌, find?,
  ◌++◌, ltb, save, min, ◌&&◌, take, pos_part, str_eq, not, holds_text, is_text, is_given, select,
  ◌||◌, get_or,
}

abbrev pub default_ttl_seconds : ℕ
default_ttl_seconds = 86400

abbrev pub max_ttl_seconds : ℕ
max_ttl_seconds = 604800

-- `_clamp_ttl`, of a requested number of seconds that may be negative
unfoldable pub clamp_ttl : Option ℤ → ℕ
clamp_ttl none = default_ttl_seconds
clamp_ttl (some requested) = max 1 (min (pos_part requested) max_ttl_seconds)

abbrev pub has_key : ℕ → ℕ → String → String → Job → Bool
has_key product_id tenant_id type_ idempotency_key j =
    (j.product_id == product_id)
    && ((j.tenant_id == tenant_id)
        && (str_eq j.type_ type_ && holds_text j.idempotency_key idempotency_key))

-- `_find_by_idempotency_key`, where a key is given
abbrev pub find_by_key : ℕ → ℕ → String → Option String → List Job → Option Job
find_by_key product_id tenant_id type_ none jobs = none
find_by_key product_id tenant_id type_ (some key) jobs =
    find? (has_key product_id tenant_id type_ key) jobs

-- The arguments of `enqueue`.
pub record JobRequest : Type 0 where
  pub product_id : ℕ
  pub tenant_id : ℕ
  pub type_ : String
  pub payload : String
  pub callback_url : Option String
  pub reference : Option String
  pub ttl_seconds : Option ℤ
  pub idempotency_key : Option String
  pub actor_user_id : Option ℕ
  pub acting_from_tenant_id : Option ℕ

abbrev pub new_job : ℕ → ℕ → JobRequest → Job
new_job id time r = record {
  id = id;
  product_id = r.product_id;
  tenant_id = r.tenant_id;
  type_ = r.type_;
  status = JobStatus.queued;
  payload = r.payload;
  result = none;
  error = none;
  progress = 0;
  idempotency_key = r.idempotency_key;
  reference = r.reference;
  callback_url = r.callback_url;
  queued_at = time;
  started_at = none;
  completed_at = none;
  expires_at = time + clamp_ttl r.ttl_seconds;
  created_by_user_id = r.actor_user_id;
  acting_from_tenant_id = r.acting_from_tenant_id;
}

abbrev pub find_for : JobRequest → List Job → Option Job
find_for r = find_by_key r.product_id r.tenant_id r.type_ r.idempotency_key

-- The insert of a job into the table as it is at the flush, when other transactions have committed
-- `rivals` since the first look. The unique index `uq_jobs_idempotency` refuses a second row with
-- one key, and the session then rolls back and looks again.
unfoldable pub insert_job : JobRequest → List Job → Action Job
insert_job r rivals w =
    let jobs = rivals ++ w.jobs in
    elim (find_for r jobs) [
      | some existing ↦ (ok existing, record w { jobs = jobs; drawn = w.drawn + 1 })
      | none ↦
          (do
            id ← new_id
            time ← now
            let job = new_job id time r
            modify (λ s. record s { jobs = job ∷ jobs })
            record_entry
                (event "job.create" r.actor_user_id "job" id (some r.tenant_id) r.product_id)
            pure job)
            w
    ]

unfoldable pub enqueue : JobRequest → List Job → Action Job
enqueue r rivals = do
  raise_if (not (is_text r.type_)) validation_failed
  existing ← gets (λ w. find_for r w.jobs)
  elim existing [ some job ↦ pure job | none ↦ insert_job r rivals ]

abbrev pub is_job : ℕ → ℕ → ℕ → Job → Bool
is_job product_id tenant_id job_id j =
    (j.id == job_id) && ((j.product_id == product_id) && (j.tenant_id == tenant_id))

-- `get`
unfoldable pub get_job : ℕ → ℕ → ℕ → Action Job
get_job product_id tenant_id job_id w =
    or_raise (find? (is_job product_id tenant_id job_id) w.jobs) not_found w

abbrev pub status_code : JobStatus → ℕ
status_code JobStatus.queued = 0
status_code JobStatus.running = 1
status_code JobStatus.done = 2
status_code JobStatus.failed = 3
status_code JobStatus.cancelled = 4

abbrev pub same_status : JobStatus → JobStatus → Bool
same_status a b = status_code a == status_code b

-- The filters of `list_jobs`; an absent or empty one filters nothing.
abbrev pub is_wanted : ℕ → ℕ → Option JobStatus → Option String → Option String → Job → Bool
is_wanted product_id tenant_id status type_ reference j =
    (j.product_id == product_id)
    && ((j.tenant_id == tenant_id)
        && (elim status [ none ↦ true | some s ↦ same_status j.status s ]
            && ((not (is_given type_) || str_eq j.type_ (get_or type_ ""))
                && (not (is_given reference) || holds_text j.reference (get_or reference "")))))

-- Insertion by `queued_at`, the latest first
unfoldable pub insert_latest : Job → List Job → List Job
insert_latest j [] = j ∷ []
insert_latest j (k ∷ ks) =
    let rest = insert_latest j ks in if ltb j.queued_at k.queued_at then k ∷ rest else j ∷ k ∷ ks

unfoldable pub latest_first : List Job → List Job
latest_first [] = []
latest_first (j ∷ js) = insert_latest j (latest_first js)

unfoldable pub list_jobs :
    ℕ → ℕ → Option JobStatus → Option String → Option String → ℤ → Action (List Job)
list_jobs product_id tenant_id status type_ reference limit = gets (λ w.
    take (max 1 (min (pos_part limit) 200))
      (latest_first (select (is_wanted product_id tenant_id status type_ reference) w.jobs)))

abbrev pub write_job : Job → World → World
write_job job w = record w { jobs = save (λ j. j.id) job w.jobs }

unfoldable pub cancel : ℕ → ℕ → ℕ → Option ℕ → Action Job
cancel product_id tenant_id job_id actor_user_id = do
  job ← get_job product_id tenant_id job_id
  raise_if (not (same_status job.status JobStatus.queued)) conflict
  time ← now
  let job' = record job { status = JobStatus.cancelled; completed_at = some time }
  modify (write_job job')
  record_entry (event "job.cancel" actor_user_id "job" job.id (some tenant_id) product_id)
  pure job'

unfoldable pub mark_running : ℕ → ℕ → ℕ → Action Job
mark_running product_id tenant_id job_id = do
  job ← get_job product_id tenant_id job_id
  if same_status job.status JobStatus.running then pure job else do
    raise_if (not (same_status job.status JobStatus.queued)) conflict
    time ← now
    let job' = record job { status = JobStatus.running; started_at = some time }
    modify (write_job job')
    pure job'

unfoldable pub mark_done : ℕ → ℕ → ℕ → Option String → Option ℕ → Action Job
mark_done product_id tenant_id job_id result actor_user_id = do
  job ← get_job product_id tenant_id job_id
  raise_if (is_terminal job.status) conflict
  time ← now
  let job' = record job {
    status = JobStatus.done;
    result = some (get_or result "{}");
    progress = 100;
    completed_at = some time;
  }
  modify (write_job job')
  record_entry (event "job.complete" actor_user_id "job" job.id (some tenant_id) product_id)
  pure job'

unfoldable pub mark_failed : ℕ → ℕ → ℕ → String → String → Option ℕ → Action Job
mark_failed product_id tenant_id job_id error_code error_message actor_user_id = do
  job ← get_job product_id tenant_id job_id
  raise_if (is_terminal job.status) conflict
  time ← now
  let job' = record job {
    status = JobStatus.failed;
    error = some (error_code, error_message);
    completed_at = some time;
  }
  modify (write_job job')
  record_entry (event "job.fail" actor_user_id "job" job.id (some tenant_id) product_id)
  pure job'
