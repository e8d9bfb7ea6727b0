-- ===== src/Queue/Attempts.antt =====
-- How often a job is tried before it is a dead letter.
use api_example.Prelude.{ℕ, zero, suc, ◌+◌, ◌-◌, ◌≤◌, ◌<◌, ◌≡◌, ap, ◌∙◌, arith}
use api_example.Prelude.Int.{pos, ◌+ℤ◌}
use api_example.Domain.{DocumentJob}
use api_example.Queue.{RedisQueue, destination, next_job}

module _ {W : Type 0} (q : RedisQueue W) where
  -- The job after a number of retries.
  unfoldable pub after_retries : ℕ → DocumentJob → DocumentJob
  after_retries zero job = job
  after_retries (suc k) job = next_job q (after_retries k job)

  module _ (job : DocumentJob) (a m : ℕ) (start : job.attempt ≡ pos a)
      (limit : q.max_attempts ≡ pos m) where
    after_retries_lem :
        (k : ℕ) → a + k ≤ m → after_retries k job ≡ record job { attempt = pos (a + k) }
    unfolding after_retries next_job ◌+ℤ◌
    after_retries_lem zero h = ground (arith, start)
    after_retries_lem (suc k) h =
        ap (next_job q) (after_retries_lem k (omega arith)) ∙ ground (arith, limit)

    -- A job with at most the maximum of attempts is put back on the main list until its attempts
    -- are the maximum, with one more attempt each time, and is a dead letter at the next retry.
    pub retried_until :
        a ≤ m
        → ((k : ℕ) → a + k < m → destination q (after_retries k job) ≡ q.main)
          × (destination q (after_retries (m - a) job) ≡ q.dead_letter)
          × (after_retries (m - a) job ≡ record job { attempt = pos m })
    unfolding destination
    retried_until h =
        let total : a + (m - a) ≡ m = omega arith in
        let last : after_retries (m - a) job ≡ record job { attempt = pos m } =
          after_retries_lem (m - a) (omega arith) ∙ rw total in
        (
          λ k lower. rw (after_retries_lem k (omega arith), limit) (ground arith),
          rw (last, limit) (ground arith),
          last,
        )
