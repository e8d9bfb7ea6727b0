-- ===== src/Tests/Jobs.antt =====
-- The worker and the queue.
use api_example.Prelude.{
  ℕ, ◌+◌, ◌≤◌, ◌<◌, ◌≡◌, refl, sym, ap, ◌∙◌, ◌≢◌, ◌↔◌, Bool, true, false, List, [], ◌∷◌, inr, arith,
  length, take, if◌then◌else◌,
}
use api_example.Prelude.Int.{pos, ◌+ℤ◌}
use api_example.Text.{Text, text, text_eq, text_eq_iff}
use api_example.Errors.{Error}
use api_example.Exec.{Result, ok, err, Exec, Done}
use api_example.Domain.{DocumentJob}
use api_example.Domain.Status.{DocumentStatus, processing, is_valid, is_valid_iff, status_text}
use api_example.Sql.{Database}
use api_example.Sql.Documents.Invariant.{IsValid}
use api_example.Ports.{ClaimedJob}
use api_example.Repository.Documents.{document_repository, document_from_db}
use api_example.Queue.{ListBackend, RedisQueue, encode, destination, retry}
use api_example.Queue.Laws.{IsListStore, remove_first}
use api_example.Queue.Attempts.{after_retries, retried_until}
use api_example.Queue.Delivery.{GoesTo, retry_moves}
use api_example.Worker.{
  DocumentWorker, new_document_worker, process, process_claimed, bounded_message,
}
use api_example.Worker.Outcome.{verdict, record_verdict, process_claimed_lem, bounded_message_lem}
use api_example.Worker.Stuck.{process_in_processing}
use api_example.Tests.Fixtures.{row_in, database_of, down, storage, stored_hello}

is_valid_iff_example :
    (is_valid "ready" ≡ true) ↔ ((d : DocumentStatus) × ("ready" ≡ status_text d))
is_valid_iff_example = is_valid_iff "ready"

bounded_message_lem_example :
    (bounded_message (text "down") ≡ take 512 (text "down"))
    × (length (bounded_message (text "down")) ≤ 512)
bounded_message_lem_example = bounded_message_lem (text "down")

abbrev worker : DocumentWorker Database
worker =
    new_document_worker document_repository (storage (ok stored_hello) (ok tt))
      (λ bytes. take 2 bytes) (λ e. [])

abbrev busy : Database
busy = database_of (row_in processing ∷ []) []

process_claimed_lem_example :
    process_claimed worker (document_from_db (row_in processing)) busy
    ≡ record_verdict worker
        (document_from_db (row_in processing))
        (verdict worker (document_from_db (row_in processing)) (ok stored_hello))
        busy
process_claimed_lem_example = process_claimed_lem worker (document_from_db (row_in processing)) busy

abbrev job : DocumentJob
job = record { document_id = pos 1; attempt = pos 1 }

busy-IsValid : IsValid busy
busy-IsValid = (refl, omega arith, omega arith)

process_in_processing_example : process worker job busy ≡ (ok tt, busy)
process_in_processing_example =
    process_in_processing (storage (ok stored_hello) (ok tt)) (λ bytes. take 2 bytes) (λ e. []) busy
      job (row_in processing) [] busy-IsValid refl refl refl

-- Lists by their keys, with the state of the connection.
abbrev Lists : Type 0
Lists = Bool × (Text → List Text)

abbrev lists_of : Lists → Text → List Text
lists_of w key = w.1 key

unfoldable set : Text → List Text → (Text → List Text) → Text → List Text
set key value f other = if text_eq other key then value else f other

set_here : (key : Text) (value : List Text) (f : Text → List Text) → set key value f key ≡ value
unfolding set
set_here key value f = rw ((text_eq_iff key key).1 refl)

set_elsewhere :
    (key other : Text) (value : List Text) (f : Text → List Text)
    → other ≢ key
    → set key value f other ≡ f other
unfolding set
set_elsewhere key other value f n = ground (arith, text_eq_iff other key, n)

abbrev push : Text → Text → Exec Lists Done
push key payload (true, f) = (ok tt, (true, set key (payload ∷ f key) f))
push key payload (false, f) = (err down, (false, f))

-- A backend whose pushes fail when the connection is down, and where nothing waits to be moved.
abbrev backend : ListBackend Lists
backend = record {
  push = push;
  move = λ source destination w. (err down, w);
  remove = λ key payload (up, f). (ok tt, (up, set key (remove_first payload (f key)) f));
}

pushed_lem :
    (key payload : Text) (w w' : Lists)
    → push key payload w ≡ (ok tt, w')
    → w' ≡ (true, set key (payload ∷ w.1 key) w.1)
pushed_lem key payload (true, f) w' h = sym (ap (λ (p : Result Done × Lists). p.1) h)
pushed_lem key payload (false, f) w' h = absurd cc

push_failed_lem :
    (key payload : Text) (w w' : Lists) (e : Error) → push key payload w ≡ (err e, w') → w' ≡ w
push_failed_lem key payload (true, f) w' e h = absurd cc
push_failed_lem key payload (false, f) w' e h = sym (ap (λ (p : Result Done × Lists). p.1) h)

abbrev at_key : Text → Lists → List Text
at_key key w = w.1 key

after : {A : Type 0} (r r' : A) (w w' : Lists) → ◌≡◌ {A = A × Lists} (r, w) (r', w') → w' ≡ w
after r r' w w' h = sym (ap (λ p. p.1) h)

backend-IsListStore : IsListStore backend lists_of
backend-IsListStore = record {
  pushed = λ key payload w w' h.
      ap (at_key key) (pushed_lem key payload w w' h) ∙ set_here key (payload ∷ w.1 key) w.1;
  push_elsewhere = λ key payload other w w' h n.
      ap (at_key other) (pushed_lem key payload w w' h)
      ∙ set_elsewhere key other (payload ∷ w.1 key) w.1 n;
  push_failed =
      λ key payload other w w' e h. ap (at_key other) (push_failed_lem key payload w w' e h);
  moved = λ source destination payload w w' h n. absurd cc;
  move_elsewhere = λ source destination other payload w w' h n n'. absurd cc;
  move_failed =
      λ source destination other w w' e h. ap (at_key other) (after (err down) (err e) w w' h);
  removed = λ key payload w w' h.
      ap (at_key key)
        (after (ok tt) (ok tt) (w.0, set key (remove_first payload (w.1 key)) w.1) w' h)
      ∙ set_here key (remove_first payload (w.1 key)) w.1;
  remove_elsewhere = λ key payload other w w' h n.
      ap (at_key other)
        (after (ok tt) (ok tt) (w.0, set key (remove_first payload (w.1 key)) w.1) w' h)
      ∙ set_elsewhere key other (remove_first payload (w.1 key)) w.1 n;
  remove_failed = λ key payload other w w' e h. absurd cc;
}

abbrev queue : RedisQueue Lists
queue = record {
  backend = backend;
  main = text "m";
  processing = text "p";
  dead_letter = text "d";
  max_attempts = pos 3;
  decode = λ payload. err down;
}

abbrev claimed_job : ClaimedJob
claimed_job = record { job = job; payload = text "j" }

abbrev one_in : Text → List Text
one_in = set (text "p") (text "j" ∷ []) (λ key. [])

abbrev removed_from : Text → List Text
removed_from = set (text "p") (remove_first (text "j") (one_in (text "p"))) one_in

abbrev second_try : DocumentJob
second_try = record job { attempt = pos 1 +ℤ pos 1 }

abbrev pushed_to : Text → List Text
pushed_to = set (text "m") (encode second_try ∷ removed_from (text "m")) removed_from

goes_on : GoesTo queue job queue.main second_try
unfolding ◌+ℤ◌
goes_on = inr (omega arith, refl, refl)

apart : queue.main ≢ queue.processing
unfolding text text_eq
apart e = absurd (differ (ap (λ t. text_eq t (text "m")) e))
  where
    differ : (text_eq (text "m") (text "m")) ≡ (text_eq (text "p") (text "m")) → ⊥
    differ h = cc

retry_moves_example :
    (retry queue claimed_job (true, one_in) ≡ (ok tt, (true, pushed_to)))
    × (pushed_to queue.processing ≡ remove_first (text "j") (one_in queue.processing))
    × (pushed_to queue.main ≡ encode second_try ∷ one_in queue.main)
    × ((other : Text)
        → other ≢ queue.processing
        → other ≢ queue.main
        → pushed_to other ≡ one_in other)
retry_moves_example =
    retry_moves queue lists_of backend-IsListStore claimed_job queue.main second_try (true, one_in)
      (true, removed_from) (true, pushed_to) goes_on apart refl refl

retried_until_example :
    ((k : ℕ) → 1 + k < 3 → destination queue (after_retries queue k job) ≡ queue.main)
    × (destination queue (after_retries queue 2 job) ≡ queue.dead_letter)
    × (after_retries queue 2 job ≡ record { document_id = pos 1; attempt = pos 3 })
retried_until_example = retried_until queue job 1 3 refl refl (omega arith)
