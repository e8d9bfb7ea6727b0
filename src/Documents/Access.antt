-- ===== src/Documents/Access.antt =====
-- Who may read, download and delete a document.
use api_example.Prelude.{
  ◌≡◌, refl, ap, ◌∙◌, ◌≢◌, ◌↔◌, ◌⊎◌, Bool, true, false, not, Option, none, some, arith,
  if◌then◌else◌, [], ◌∷◌, ◌++◌, ◌||◌,
}
use api_example.Prelude.Int.{ℤ, pos, ◌≤ℤ◌, int_eq_iff}
use api_example.Text.{Text, is_empty, trim_left}
use api_example.Text.Path.{slash}
use api_example.Errors.{Error, app}
use api_example.Errors.Catalog.{err_document_not_ready}
use api_example.Exec.{ok, err, Exec, return, fail_if, ◌>>=◌, ◌>>◌}
use api_example.Exec.Rules.{bind-ok, bind-err}
use api_example.Domain.{Document, Actor, is_admin}
use api_example.Domain.Status.{ready, status_eq}
use api_example.Ports.{StoredObject}
use api_example.Documents.{
  DocumentService, authorize_document, or_fail, set_public_url, get, download, delete,
}

-- An actor may use a document: it is authenticated, and it is an administrator or the owner.
pub record MayUse (actor : Actor) (document : Document) : Type 0 where
  pub authenticated : pos 1 ≤ℤ actor.user_id
  pub allowed : (is_admin actor ≡ true) ⊎ (document.owner_id ≡ actor.user_id)

-- `authorizeDocument` lets an actor pass exactly if it may use the document.
pub authorize_document_iff :
    (actor : Actor) (document : Document)
    → (authorize_document actor document ≡ none) ↔ MayUse actor document
unfolding authorize_document
authorize_document_iff actor document = (to, from)
  where
    to : authorize_document actor document ≡ none → MayUse actor document
    to h = record {
      authenticated = ground arith;
      allowed = ground (arith, int_eq_iff document.owner_id actor.user_id);
    }

    from : MayUse actor document → authorize_document actor document ≡ none
    from m = ground (arith, m.authenticated, m.allowed, int_eq_iff document.owner_id actor.user_id)

abbrev SameRow : Document → Document → Type 0
SameRow a b = (a.id ≡ b.id) × (a.status ≡ b.status) × (a.storage_key ≡ b.storage_key)

-- What a document is shown as.
pub record IsShown (cdn_url : Text) (document shown : Document) : Type 0 where
  pub same : shown ≡ record document { url = shown.url }
  pub no_address : cdn_url ≡ [] → shown.url ≡ document.url
  pub no_key : document.storage_key ≡ [] → shown.url ≡ document.url
  pub address :
      cdn_url ≢ []
      → document.storage_key ≢ []
      → shown.url ≡ cdn_url ++ slash ∷ trim_left slash document.storage_key

pub set_public_url-IsShown :
    {W : Type 0} (s : DocumentService W) (document : Document)
    → IsShown s.cdn_url document (set_public_url s document)
unfolding set_public_url
set_public_url-IsShown s document = record {
  same = same_but_url (is_empty s.cdn_url || is_empty document.storage_key);
  no_address = λ none. ground (arith, none);
  no_key = λ none. ground (arith, none);
  address = λ some_address some_key. ground (arith, some_address, some_key);
}
  where
    shown_if : Bool → Document
    shown_if b =
        if b
        then document
        else record document { url = s.cdn_url ++ slash ∷ trim_left slash document.storage_key }

    same_but_url : (b : Bool) → shown_if b ≡ record document { url = (shown_if b).url }
    same_but_url true = refl
    same_but_url false = refl

set_public_url-SameRow :
    {W : Type 0} (s : DocumentService W) (document : Document)
    → SameRow (set_public_url s document) document
unfolding set_public_url
set_public_url-SameRow s document = ground arith

module _ {W : Type 0} (s : DocumentService W) (actor : Actor) (id : ℤ) (document : Document)
    (w w' : W) (read : s.repository.get_by_id id w ≡ (ok document, w')) where
  abbrev pub checked : Option Error → Exec W Document
  checked o = or_fail s o >> return (set_public_url s document)

  pub get-checked : get s actor id w ≡ checked (authorize_document actor document) w'
  unfolding get
  get-checked =
      bind-ok (s.repository.get_by_id id)
        (λ d. or_fail s (authorize_document actor d) >> return (set_public_url s d)) w w' document
        read

  get_refused :
      (o : Option Error)
      → authorize_document actor document ≡ o
      → o ≢ none
      → (e : Error) × (get s actor id w ≡ (err e, w'))
  get_refused none h n = absurd (n refl)
  get_refused (some e) h n = (e, get-checked ∙ rw h)

  -- An actor that may not use a document that the repository finds gets one error from Get,
  -- Download and Delete alike, and none of them does anything after the document was read: no
  -- object is opened and no row deleted.
  pub denied :
      ¬ MayUse actor document
      → (e : Error) × (get s actor id w ≡ (err e, w'))
        × (download s actor id w ≡ (err e, w'))
        × (delete s actor id w ≡ (err e, w'))
  unfolding download delete
  denied h =
      let (e, refused) =
        get_refused (authorize_document actor document) refl
          (λ p. h ((authorize_document_iff actor document).0 p)) in
      (
        e,
        refused,
        bind-err (get s actor id)
            (λ d.
              fail_if (not (status_eq d.status ready)) (app err_document_not_ready)
              >> (s.storage.open_object d.storage_key >>= λ o. return (o, d)))
            w w' e refused,
        bind-err (get s actor id) (λ d. s.repository.soft_delete d.id) w w' e refused,
      )

  -- An actor that may use a document that the repository finds gets it from Get, unchanged but for its
  -- URL: that is the address of the CDN, a slash and the storage key without the slashes in front of
  -- it, if there are an address and a key, and it stays otherwise. Its Delete is the deletion of that
  -- row; and its Download is the opened object with the same document if the document is ready, and is
  -- refused with ErrDocumentNotReady before any object is opened otherwise.
  pub granted :
      MayUse actor document
      → (shown : Document) × IsShown s.cdn_url document shown
        × (get s actor id w ≡ (ok shown, w'))
        × (delete s actor id w ≡ s.repository.soft_delete document.id w')
        × (download s actor id w ≡ (
            if status_eq document.status ready
            then (s.storage.open_object document.storage_key >>= λ o. return (o, shown)) w'
            else (err (app err_document_not_ready), w')))
  unfolding download delete set_public_url
  granted h = (
    set_public_url s document,
    set_public_url-IsShown s document,
    got,
    bind-ok (get s actor id) (λ d. s.repository.soft_delete d.id) w w' (set_public_url s document)
          got
        ∙ ap (λ i. s.repository.soft_delete i w') same.0,
    bind-ok (get s actor id)
          (λ d.
            fail_if (not (status_eq d.status ready)) (app err_document_not_ready)
            >> (s.storage.open_object d.storage_key >>= λ o. return (o, d)))
          w w' (set_public_url s document) got
        ∙ rw (same.1, same.2) (by_status (status_eq document.status ready)),
  )
    where
      same : SameRow (set_public_url s document) document
      same = set_public_url-SameRow s document

      got : get s actor id w ≡ (ok (set_public_url s document), w')
      got = get-checked ∙ rw ((authorize_document_iff actor document).1 h)

      opening : Exec W (StoredObject × Document)
      opening =
          s.storage.open_object document.storage_key >>= λ o. return (o, set_public_url s document)

      by_status :
          (b : Bool)
          → (fail_if (not b) (app err_document_not_ready) >> opening) w'
            ≡ (if b then opening w' else (err (app err_document_not_ready), w'))
      by_status true = refl
      by_status false = refl
