-- ===== src/Tests/Queue.antt =====
-- Runs of the job queue.
use plynth.World.{empty_world}
use plynth.Samples.{queue, done_job, request}
use plynth.Job.Lifecycle.{has_id, perform_all, cancel_call, failed_call, ended_stays}
use plynth.Job.Listing.{InScope, HasLifetime, enqueue-HasLifetime, list_jobs-InScope}
use plynth.Job.{enqueue, list_jobs}
use plynth.Job.Race.{enqueue_twice}
use plynth.Models.Job.{Job}
use plynth.Exec.{ok}
use plynth.Prelude.{[], ◌∷◌, some, none, refl, find?, ◌≤◌, List, pos, ◌≡◌, All, length}

ended_stays_example :
    find?
      (has_id 4)
      (perform_all (cancel_call 9 1 4 none ∷ failed_call 9 1 4 "E" "e" none ∷ []) queue).jobs
    ≡ some done_job
ended_stays_example =
    ended_stays (cancel_call 9 1 4 none ∷ failed_call 9 1 4 "E" "e" none ∷ []) 4 queue done_job
      (tt, tt) refl refl

enqueue_twice_example :
    (job : Job) × ((enqueue request [] empty_world).0 ≡ ok job)
    × (enqueue request [] (enqueue request [] empty_world).1
        ≡ (ok job, (enqueue request [] empty_world).1))
enqueue_twice_example =
    enqueue_twice request request "k1" [] [] empty_world refl refl (refl, refl, refl, refl)

enqueue-HasLifetime_example : All HasLifetime (enqueue request [] empty_world).1.jobs
enqueue-HasLifetime_example = enqueue-HasLifetime request [] empty_world tt tt

list_jobs-InScope_example :
    (js : List Job) × (list_jobs 9 1 none none none (pos 50) queue ≡ (ok js, queue))
    × All (InScope 9 1) js
    × (length js ≤ 200)
list_jobs-InScope_example = list_jobs-InScope 9 1 none none none (pos 50) queue
