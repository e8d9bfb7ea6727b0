-- ===== src/Queue/Delivery.antt =====
-- Where the payload of a job stands after each method of the queue.
use api_example.Prelude.{◌≡◌, refl, sym, ap, ◌∙◌, ◌≢◌, ◌⊎◌, inl, inr, true, false, List, ◌∷◌, arith}
use api_example.Prelude.Int.{pos, ◌≤ℤ◌, ◌+ℤ◌, +ℤ_parts, leb_ℤ}
use api_example.Text.{Text}
use api_example.Exec.{ok}
use api_example.Domain.{DocumentJob}
use api_example.Ports.{ClaimedJob}
use api_example.Queue.{RedisQueue, encode, destination, next_job, retry}
use api_example.Queue.Laws.{IsListStore, remove_first}

-- Where a job goes that is tried again, and as which job: it is buried as it is if its attempts are
-- used up, and gets one more attempt on the main list otherwise.
abbrev pub GoesTo : {W : Type 0} → RedisQueue W → DocumentJob → Text → DocumentJob → Type 0
GoesTo q job to next =
    ((q.max_attempts ≤ℤ job.attempt) × (to ≡ q.dead_letter) × (next ≡ job))
    ⊎ ((job.attempt +ℤ pos 1 ≤ℤ q.max_attempts)
        × (to ≡ q.main)
        × (next ≡ record job { attempt = job.attempt +ℤ pos 1 }))

destination_lem :
    {W : Type 0} (q : RedisQueue W) (job : DocumentJob) (to : Text) (next : DocumentJob)
    → GoesTo q job to next
    → (destination q job ≡ to) × (next_job q job ≡ next)
unfolding destination next_job
destination_lem q job to next (inl (spent, at, same)) =
    let used_up : leb_ℤ q.max_attempts job.attempt ≡ true = ground (arith, spent) in
    rw (used_up, at, same) (refl, refl)
destination_lem q job to next (inr (left, at, same)) =
    let again : leb_ℤ q.max_attempts job.attempt ≡ false =
      ground (arith, left, +ℤ_parts job.attempt (pos 1)) in
    rw (again, at, same) (refl, refl)

module _ {W : Type 0} (q : RedisQueue W) (lists : W → Text → List Text)
    (store : IsListStore q.backend lists) where
  -- A retry whose two calls work on the store takes the job's payload off the processing list and
  -- puts a job at the head of one list: the same job on the dead-letter list if its attempts have
  -- reached the maximum, and the job with one more attempt on the main list if they are below it. If
  -- that list is not the processing list, every other list stays as it was.
  pub retry_moves :
      (c : ClaimedJob) (to : Text) (next : DocumentJob) (w w1 w2 : W)
      → GoesTo q c.job to next
      → to ≢ q.processing
      → q.backend.remove q.processing c.payload w ≡ (ok tt, w1)
      → q.backend.push to (encode next) w1 ≡ (ok tt, w2)
      → (retry q c w ≡ (ok tt, w2))
        × (lists w2 q.processing ≡ remove_first c.payload (lists w q.processing))
        × (lists w2 to ≡ encode next ∷ lists w to)
        × ((other : Text) → other ≢ q.processing → other ≢ to → lists w2 other ≡ lists w other)
  unfolding retry
  retry_moves c to next w w1 w2 goes apart removed sent =
      let (at, same) = destination_lem q c.job to next goes in
      (
        ground (arith, removed, sent, at, same),
        store.push_elsewhere to (encode next) q.processing w1 w2 sent (λ e. apart (sym e))
            ∙ store.removed q.processing c.payload w w1 removed,
        store.pushed to (encode next) w1 w2 sent
            ∙ ap (λ l. encode next ∷ l)
                (store.remove_elsewhere q.processing c.payload to w w1 removed apart),
        λ other not_processing not_to.
            store.push_elsewhere to (encode next) other w1 w2 sent not_to
            ∙ store.remove_elsewhere q.processing c.payload other w w1 removed not_processing,
      )
