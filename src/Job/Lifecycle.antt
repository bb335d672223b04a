-- ===== src/Job/Lifecycle.antt =====
-- The states of a job (app/services/job.py): which changes the service makes.
use plynth.World.{World}
use plynth.Job.{mark_running, mark_done, mark_failed, cancel, get_job, is_job, same_status}
use plynth.Models.Job.{JobStatus, Job, is_terminal}
use plynth.Prelude.{
  [], ◌∷◌, some, true, false, inl, inr, refl, ℕ, List, Bool, ◌≡◌, Option, ◌⊎◌, Option-cases, String,
  ◌==◌, Distinct, find?, save, Bool-cases, Distinct-save, get_or, arith, find?-save_any, find?-All,
  Distinct-find, ap, subst, ◌∙◌, if◌then◌else◌,
}

-- The transitions of the module's header: a queued job starts, ends or is cancelled; a running one
-- ends; a terminal one stays.
abbrev pub moves_to : JobStatus → JobStatus → Bool
moves_to JobStatus.queued JobStatus.queued = false
moves_to JobStatus.queued _ = true
moves_to JobStatus.running JobStatus.done = true
moves_to JobStatus.running JobStatus.failed = true
moves_to _ _ = false

-- From `w` to `w'` no job changed, or the job with this identifier, of this tenant, moved along one
-- transition.
abbrev pub IsTransition : ℕ → ℕ → ℕ → World → World → Type 0
IsTransition p t i w w' =
    (w'.jobs ≡ w.jobs)
    ⊎ ((job : Job) × (job' : Job) × (find? (is_job p t i) w.jobs ≡ some job)
        × (job'.id ≡ job.id)
        × (moves_to job.status job'.status ≡ true)
        × (w'.jobs ≡ save (λ j. j.id) job' w.jobs))

pub cancel-IsTransition :
    (p t i : ℕ) (actor : Option ℕ) (w : World) → IsTransition p t i w (cancel p t i actor w).1
unfolding cancel get_job
cancel-IsTransition p t i actor w = elim (Option-cases (find? (is_job p t i) w.jobs)) [
  | inl missing ↦ rw (missing, cancel) (inl refl)
  | inr (job, e) ↦ elim (Bool-cases (same_status job.status JobStatus.queued)) [
    | inl queued ↦
        rw (e, cancel)
          (rw queued (
            inr (
              job,
              record job { status = JobStatus.cancelled; completed_at = some w.env.now },
              refl,
              refl,
              ground arith,
              refl,
            )))
    | inr other ↦ rw (e, cancel) (rw other (inl refl))
  ]
]

pub mark_running-IsTransition :
    (p t i : ℕ) (w : World) → IsTransition p t i w (mark_running p t i w).1
unfolding mark_running get_job
mark_running-IsTransition p t i w = elim (Option-cases (find? (is_job p t i) w.jobs)) [
  | inl missing ↦ rw (missing, mark_running) (inl refl)
  | inr (job, e) ↦ elim (Bool-cases (same_status job.status JobStatus.running)) [
    | inl running ↦ rw (e, mark_running) (rw running (inl refl))
    | inr idle ↦ elim (Bool-cases (same_status job.status JobStatus.queued)) [
      | inl queued ↦
          rw (e, mark_running)
            (rw idle (
              rw queued (
                inr (
                  job,
                  record job { status = JobStatus.running; started_at = some w.env.now },
                  refl,
                  refl,
                  ground arith,
                  refl,
                ))))
      | inr other ↦ rw (e, mark_running) (rw idle (rw other (inl refl)))
    ]
  ]
]

pub mark_done-IsTransition :
    (p t i : ℕ) (result : Option String) (actor : Option ℕ) (w : World)
    → IsTransition p t i w (mark_done p t i result actor w).1
unfolding mark_done get_job
mark_done-IsTransition p t i result actor w = elim (Option-cases (find? (is_job p t i) w.jobs)) [
  | inl missing ↦ rw (missing, mark_done) (inl refl)
  | inr (job, e) ↦ elim (Bool-cases (is_terminal job.status)) [
    | inl ended ↦ rw (e, mark_done) (rw ended (inl refl))
    | inr live ↦
        rw (e, mark_done)
          (rw live (
            inr (
              job,
              record job {
                status = JobStatus.done;
                result = some (get_or result "{}");
                progress = 100;
                completed_at = some w.env.now;
              },
              refl,
              refl,
              ground arith,
              refl,
            )))
  ]
]

pub mark_failed-IsTransition :
    (p t i : ℕ) (code message : String) (actor : Option ℕ) (w : World)
    → IsTransition p t i w (mark_failed p t i code message actor w).1
unfolding mark_failed get_job
mark_failed-IsTransition p t i code message actor w =
    elim (Option-cases (find? (is_job p t i) w.jobs)) [
      | inl missing ↦ rw (missing, mark_failed) (inl refl)
      | inr (job, e) ↦ elim (Bool-cases (is_terminal job.status)) [
        | inl ended ↦ rw (e, mark_failed) (rw ended (inl refl))
        | inr live ↦
            rw (e, mark_failed)
              (rw live (
                inr (
                  job,
                  record job {
                    status = JobStatus.failed;
                    error = some (code, message);
                    completed_at = some w.env.now;
                  },
                  refl,
                  refl,
                  ground arith,
                  refl,
                )))
      ]
    ]

-- The calls that change a job.
pub data Call : Type 0 where
  cancel_call : ℕ → ℕ → ℕ → Option ℕ → Call
  running_call : ℕ → ℕ → ℕ → Call
  done_call : ℕ → ℕ → ℕ → Option String → Option ℕ → Call
  failed_call : ℕ → ℕ → ℕ → String → String → Option ℕ → Call

unfoldable pub perform : Call → World → World
perform (cancel_call p t i actor) w = (cancel p t i actor w).1
perform (running_call p t i) w = (mark_running p t i w).1
perform (done_call p t i result actor) w = (mark_done p t i result actor w).1
perform (failed_call p t i code message actor) w = (mark_failed p t i code message actor w).1

unfoldable pub perform_all : List Call → World → World
perform_all [] w = w
perform_all (c ∷ cs) w = perform_all cs (perform c w)

abbrev pub has_id : ℕ → Job → Bool
has_id i j = j.id == i

terminal_stays : (a b : JobStatus) → is_terminal a ≡ true → moves_to a b ≡ true → ⊥
terminal_stays a b ended moved = ground arith

-- Another job's row is not touched by the flush of `job'`.
keeps_other :
    (p t k i : ℕ) (w : World) (j job job' : Job)
    → Distinct (λ x. x.id) w.jobs
    → find? (is_job p t k) w.jobs ≡ some job
    → job'.id ≡ job.id
    → (j.id == job'.id) ≡ false
    → find? (has_id i) w.jobs ≡ some j
    → find? (has_id i) (save (λ x. x.id) job' w.jobs) ≡ some j
keeps_other p t k i w j job job' d found id other e =
    find?-save_any (λ x. x.id) (has_id i) job job' w.jobs j
      (Distinct-find (λ x. x.id) (is_job p t k) w.jobs job d found) id (ap (λ v. v == i) id) e
    ∙ ap (λ b. some (if b then job' else j)) other

-- A job that has ended is the same after any transition.
transition-keeps-ended :
    (p t k i : ℕ) (w w' : World) (j : Job)
    → IsTransition p t k w w'
    → Distinct (λ x. x.id) w.jobs
    → find? (has_id i) w.jobs ≡ some j
    → is_terminal j.status ≡ true
    → (find? (has_id i) w'.jobs ≡ some j) × Distinct (λ x. x.id) w'.jobs
transition-keeps-ended p t k i w w' j (inl same) d e ended = (rw same e, rw same d)
transition-keeps-ended p t k i w w' j (inr (job, job', found, id, moved, eq)) d e ended = (
  rw eq (elim (Bool-cases (j.id == job'.id)) [
    | inl same ↦ absurd (
        terminal_stays job.status job'.status
          (subst (λ x. is_terminal x.status ≡ true) (the_job (ground arith)) ended) moved)
    | inr other ↦ keeps_other p t k i w j job job' d found id other e
  ]),
  rw eq (Distinct-save (λ x. x.id) job' w.jobs d),
)
  where
    the_job : j.id ≡ job.id → j ≡ job
    the_job =
        find?-All (has_id i) (λ x. x.id ≡ job.id → x ≡ job) w.jobs j
          (Distinct-find (λ x. x.id) (is_job p t k) w.jobs job d found) e

perform-keeps-ended :
    (c : Call) (i : ℕ) (w : World) (j : Job)
    → Distinct (λ x. x.id) w.jobs
    → find? (has_id i) w.jobs ≡ some j
    → is_terminal j.status ≡ true
    → (find? (has_id i) (perform c w).jobs ≡ some j) × Distinct (λ x. x.id) (perform c w).jobs
unfolding perform
perform-keeps-ended (cancel_call p t k actor) i w j =
    transition-keeps-ended p t k i w (cancel p t k actor w).1 j (cancel-IsTransition p t k actor w)
perform-keeps-ended (running_call p t k) i w j =
    transition-keeps-ended p t k i w (mark_running p t k w).1 j (mark_running-IsTransition p t k w)
perform-keeps-ended (done_call p t k result actor) i w j =
    transition-keeps-ended p t k i w (mark_done p t k result actor w).1 j
      (mark_done-IsTransition p t k result actor w)
perform-keeps-ended (failed_call p t k code message actor) i w j =
    transition-keeps-ended p t k i w (mark_failed p t k code message actor w).1 j
      (mark_failed-IsTransition p t k code message actor w)

-- Terminal states absorb: where identifiers are distinct, a job that is done, failed or cancelled
-- is the very same row after any sequence of cancels, starts, completions and failures, of any
-- tenant.
pub ended_stays :
    (cs : List Call) (i : ℕ) (w : World) (j : Job)
    → Distinct (λ x. x.id) w.jobs
    → find? (has_id i) w.jobs ≡ some j
    → is_terminal j.status ≡ true
    → find? (has_id i) (perform_all cs w).jobs ≡ some j
unfolding perform_all
ended_stays [] i w j d e ended = e
ended_stays (c ∷ cs) i w j d e ended =
    let (e', d') = perform-keeps-ended c i w j d e ended in
    ended_stays cs i (perform c w) j d' e' ended
