-- ===== src/Documents/Created.antt =====
-- What a `Create` that returned a document has done.
use api_example.Prelude.{
  ℕ, ◌≡◌, refl, sym, ap, ◌∙◌, ◌⊎◌, inl, inr, Option, none, some, [], ◌∷◌, ◌++◌,
}
use mathlib.Core.Path.{subst}
use api_example.Prelude.Int.{pos}
use api_example.Text.{Text, text}
use api_example.Text.Decimal.{format_int}
use api_example.Text.Path.{slash}
use api_example.Errors.{Error, caused}
use api_example.Errors.Catalog.{err_queue_unavailable}
use api_example.Exec.{Result, ok, err, Exec, Done, attempt, call, from_result, ◌>>=◌, ◌>>◌}
use api_example.Exec.Rules.{bind-inverts, attempt-inverts}
use api_example.Domain.{Document, NewDocument, Actor}
use api_example.Upload.{CountingReader, limited}
use api_example.Documents.{
  DocumentService, UploadInput, CheckedUpload, check_upload, storage_key, register, create,
  generated, stored, persisted, compensated, enqueued, set_public_url,
}
use api_example.Documents.Access.{IsShown, set_public_url-IsShown}
use api_example.Documents.Create.{IsAcceptable, check_upload-IsAcceptable}

-- What stands beside the document, from what the queue returned.
abbrev pub IsWarning : Result Done → Option Error → Type 0
IsWarning sent warning =
    ((sent ≡ ok tt) × (warning ≡ none))
    ⊎ ((e : Error) × (sent ≡ err e) × (warning ≡ some (caused err_queue_unavailable e)))

pub record IsCreated {W : Type 0} (s : DocumentService W) (actor : Actor) (input : UploadInput)
    (w : W) (document : Document) (warning : Option Error) (w' : W) : Type 0 where
  pub upload : CheckedUpload
  pub id : Text
  pub reader : CountingReader
  pub row : Document
  pub sent : Result Done
  pub with_key : W
  pub with_object : W
  pub with_row : W
  pub acceptable : IsAcceptable s actor input upload
  pub drawn : s.key_generator w ≡ (ok id, with_key)
  pub key :
      s.storage_key_prefix ≡ []
      → storage_key s actor.user_id id
        ≡ text "documents/" ++ (format_int actor.user_id ++ slash ∷ id)
  pub put :
      s.storage.put
        (storage_key s actor.user_id id)
        upload.media_type
        (limited s.max_upload_bytes upload.body)
        with_key
      ≡ ((none, reader), with_object)
  pub written :
      s.repository.create
        (record {
          owner_id = actor.user_id;
          original_name = upload.name;
          media_type = upload.media_type;
          size_bytes = pos reader.count;
          storage_key = storage_key s actor.user_id id;
        })
        with_object
      ≡ (ok row, with_row)
  pub shown : IsShown s.cdn_url row document
  pub queued :
      s.queue.enqueue (record { document_id = row.id; attempt = pos 1 }) with_row ≡ (sent, w')
  pub warned : IsWarning sent warning

call-inverts :
    {W A : Type 0} (m : W → A × W) (w w' : W) (a : A) → call m w ≡ (ok a, w') → m w ≡ (a, w')
call-inverts {W} {A} m w w' a = go (m w)
  where
    go : (p : A × W) → ◌≡◌ {A = Result A × W} (ok p.0, p.1) (ok a, w') → p ≡ (a, w')
    go (x, v) h = cc

module _ {W : Type 0} (s : DocumentService W) where
  generated-ok :
      (r : Result Text) (id : Text) (w w' : W)
      → generated s r w ≡ (ok id, w')
      → (r ≡ ok id) × (w' ≡ w)
  generated-ok (ok x) id w w' h = (cc, cc)
  generated-ok (err e) id w w' h = absurd cc

  stored-ok :
      (o : Option Error) (t : Done) (w w' : W) → stored s o w ≡ (ok t, w') → (o ≡ none) × (w' ≡ w)
  stored-ok none t w w' h = (refl, cc)
  stored-ok (some e) t w w' h = absurd cc

  persisted-ok :
      (key : Text) (r : Result Document) (row : Document) (w w' : W)
      → persisted s key r w ≡ (ok row, w')
      → (r ≡ ok row) × (w' ≡ w)
  persisted-ok key (ok x) row w w' h = (cc, cc)
  persisted-ok key (err e) row w w' h =
      let (cleanup, v, a, k) =
        bind-inverts (attempt (s.storage.delete key)) (compensated s e) w w' row h in
      absurd (fails cleanup v k)
    where
      fails : (r : Result Done) (v : W) → compensated s e r v ≡ (ok row, w') → ⊥
      fails (ok t) v k = cc
      fails (err x) v k = cc

  enqueued-ok :
      (document shown : Document) (sent : Result Done) (warning : Option Error) (w w' : W)
      → enqueued s document sent w ≡ (ok (shown, warning), w')
      → (document ≡ shown) × IsWarning sent warning × (w' ≡ w)
  enqueued-ok document shown (ok tt) warning w w' h = (cc, inl (refl, cc), cc)
  enqueued-ok document shown (err e) warning w w' h = (cc, inr (e, refl, cc), cc)

  -- The steps of `Create`, from the last one.
  abbrev queue_it : Document → Exec W (Document × Option Error)
  queue_it row =
      attempt
        (s.queue.enqueue (record { document_id = (set_public_url s row).id; attempt = pos 1 }))
      >>= enqueued s (set_public_url s row)

  abbrev written_as : Text → Result Document → Exec W (Document × Option Error)
  written_as key row = persisted s key row >>= queue_it

  module _ (actor : Actor) where
    abbrev put_as :
        CheckedUpload → Text → Option Error × CountingReader → Exec W (Document × Option Error)
    put_as u id put =
        stored s put.0 >> register s actor u (storage_key s actor.user_id id) put.1.count

    abbrev put_under : CheckedUpload → Text → Exec W (Document × Option Error)
    put_under u id =
        call (
          s.storage.put (storage_key s actor.user_id id) u.media_type
            (limited s.max_upload_bytes u.body))
        >>= put_as u id

    abbrev drawn_as : CheckedUpload → Result Text → Exec W (Document × Option Error)
    drawn_as u drawn = generated s drawn >>= put_under u

    abbrev draw : CheckedUpload → Exec W (Document × Option Error)
    draw u = attempt s.key_generator >>= drawn_as u

    abbrev row_for : CheckedUpload → Text → ℕ → NewDocument
    row_for u key count = record {
      owner_id = actor.user_id;
      original_name = u.name;
      media_type = u.media_type;
      size_bytes = pos count;
      storage_key = key;
    }

    register-ok :
        (u : CheckedUpload) (key : Text) (count : ℕ) (document : Document) (warning : Option Error)
        (w w' : W)
        → register s actor u key count w ≡ (ok (document, warning), w')
        → (row : Document) × (sent : Result Done) × (with_row : W) × (s.repository.create
              (row_for u key count)
              w
            ≡ (ok row, with_row))
          × IsShown s.cdn_url row document
          × (s.queue.enqueue (record { document_id = row.id; attempt = pos 1 }) with_row
              ≡ (sent, w'))
          × IsWarning sent warning
    unfolding register
    register-ok u key count document warning w w' h =
        let (r, w1, a1, k1) =
          bind-inverts (attempt (s.repository.create (row_for u key count))) (written_as key) w w'
            (document, warning) h in
        let (row, w2, a2, k2) =
          bind-inverts (persisted s key r) queue_it w1 w' (document, warning) k1 in
        let (sent, w3, a3, k3) =
          bind-inverts
            (attempt (
              s.queue.enqueue
                (record { document_id = (set_public_url s row).id; attempt = pos 1 })))
            (enqueued s (set_public_url s row)) w2 w' (document, warning) k2 in
        let writing = attempt-inverts (s.repository.create (row_for u key count)) r w w1 a1 in
        let (is_row, stay2) = persisted-ok key r row w1 w2 a2 in
        let sending =
          attempt-inverts
            (s.queue.enqueue (record { document_id = (set_public_url s row).id; attempt = pos 1 }))
            sent w2 w3 a3 in
        let (same, warned, stay3) =
          enqueued-ok (set_public_url s row) document sent warning w3 w' k3 in
        let is_shown = set_public_url-IsShown s row in
        (
          row,
          sent,
          w2,
          writing ∙ ap (λ x. (x, w1)) is_row ∙ ap (λ v. (ok row, v)) (sym stay2),
          subst (IsShown s.cdn_url row) same is_shown,
          ap (λ i. s.queue.enqueue (record { document_id = i; attempt = pos 1 }) w2)
                (sym (ap (λ (x : Document). x.id) is_shown.same))
              ∙ sending
              ∙ ap (λ v. (sent, v)) (sym stay3),
          warned,
        )

    storage_key_lem :
        (id : Text)
        → s.storage_key_prefix ≡ []
        → storage_key s actor.user_id id
          ≡ text "documents/" ++ (format_int actor.user_id ++ slash ∷ id)
    unfolding storage_key
    storage_key_lem id unprefixed = rw unprefixed refl

    -- A `Create` that returns a document has taken an acceptable upload; has drawn an id for its key,
    -- which is "documents/", the user's id, a slash and the drawn id where there is no prefix; has put
    -- the body, limited to the maximum, under that key; has then written a row with the owner, the
    -- name, the media type, the key, and the number of bytes that Put read for its size; has then sent
    -- the job with the row's id and attempt 1, last of all; and returns the row with its public URL. An
    -- error of the queue stands beside it as ErrQueueUnavailable, and no other error does.
    pub create-IsCreated :
        (input : UploadInput) (document : Document) (warning : Option Error) (w w' : W)
        → create s actor input w ≡ (ok (document, warning), w')
        → IsCreated s actor input w document warning w'
    unfolding create
    create-IsCreated input document warning w w' h =
        let (u, w1, a1, k1) =
          bind-inverts (from_result (check_upload s actor input)) draw w w' (document, warning) h in
        let (r, w2, a2, k2) =
          bind-inverts (attempt s.key_generator) (drawn_as u) w1 w' (document, warning) k1 in
        let (id, w3, a3, k3) =
          bind-inverts (generated s r) (put_under u) w2 w' (document, warning) k2 in
        let (put, w4, a4, k4) =
          bind-inverts
            (call (
              s.storage.put (storage_key s actor.user_id id) u.media_type
                (limited s.max_upload_bytes u.body)))
            (put_as u id) w3 w' (document, warning) k3 in
        let (t, w5, a5, k5) =
          bind-inverts (stored s put.0)
            (λ _. register s actor u (storage_key s actor.user_id id) put.1.count) w4 w'
            (document, warning) k4 in
        let drawing = attempt-inverts s.key_generator r w1 w2 a2 in
        let (is_id, stay3) = generated-ok r id w2 w3 a3 in
        let putting =
          call-inverts
            (s.storage.put (storage_key s actor.user_id id) u.media_type
              (limited s.max_upload_bytes u.body))
            w3 w4 put a4 in
        let (no_error, stay5) = stored-ok put.0 t w4 w5 a5 in
        let stay1 = sym (ap (λ (p : Result CheckedUpload × W). p.1) a1) in
        let (row, sent, with_row, written, shown, queued, warned) =
          register-ok u (storage_key s actor.user_id id) put.1.count document warning w5 w' k5 in
        record {
          upload = u;
          id = id;
          reader = put.1;
          row = row;
          sent = sent;
          with_key = w3;
          with_object = w5;
          with_row = with_row;
          acceptable =
              (check_upload-IsAcceptable s actor input u).0
                (ap (λ (p : Result CheckedUpload × W). p.0) a1);
          drawn =
              ap s.key_generator (sym stay1)
              ∙ drawing
              ∙ ap (λ x. (x, w2)) is_id
              ∙ ap (λ v. (ok id, v)) (sym stay3);
          key = storage_key_lem id;
          put =
              putting
              ∙ ap (λ x. ((x, put.1), w4)) no_error
              ∙ ap (λ v. ((none, put.1), v)) (sym stay5);
          written = written;
          shown = shown;
          queued = queued;
          warned = warned;
        }
