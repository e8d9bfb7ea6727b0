-- ===== src/Sql/Documents/History.antt =====
-- What becomes of a row under any sequence of writes, with any failures among them.
use api_example.Prelude.{
  ℕ, zero, suc, ◌≡◌, refl, ap, ◌∙◌, ◌≢◌, Bool, true, false, Option, none, some, List, [], ◌∷◌, ◌++◌,
  if◌then◌else◌, get_elem?,
}
use api_example.Domain.Status.{DocumentStatus, ready}
use api_example.Sql.{DocumentRow, Database, update}
use api_example.Sql.Documents.Lifecycle.{
  StatusStep, claim_pending, claim_failed, succeed, give_up, RowStep, idle, delete, advance,
  TableStep, unchanged, added, updated, DocumentWrite, write, write_all, write-TableStep,
}

-- The row that stands at the same place later.
pub data Evolves (r : DocumentRow) : DocumentRow → Type 0 where
  here : Evolves r r
  step : {s t : DocumentRow} → Evolves r s → RowStep s t → Evolves r t

get_elem?-append :
    (rows : List DocumentRow) (i : ℕ) (r s : DocumentRow)
    → get_elem? rows i ≡ some r
    → get_elem? (rows ++ s ∷ []) i ≡ some r
get_elem?-append [] i r s h = cc
get_elem?-append (t ∷ rows) zero r s h = h
get_elem?-append (t ∷ rows) (suc i) r s h = get_elem?-append rows i r s h

get_elem?-update :
    (where_clause : DocumentRow → Bool) (change : DocumentRow → DocumentRow)
    (rows : List DocumentRow) (i : ℕ) (r : DocumentRow)
    → get_elem? rows i ≡ some r
    → get_elem? (update where_clause change rows) i ≡ some (if where_clause r then change r else r)
get_elem?-update where_clause change [] i r h = cc
get_elem?-update where_clause change (s ∷ rows) zero r h =
    ap
      (λ (o : Option DocumentRow). elim o [
        | none ↦ none
        | some t ↦ some (if where_clause t then change t else t)
      ])
      h
get_elem?-update where_clause change (s ∷ rows) (suc i) r h =
    get_elem?-update where_clause change rows i r h

updated-RowStep :
    (b : Bool) (change : DocumentRow → DocumentRow) (r : DocumentRow)
    → (b ≡ true → RowStep r (change r))
    → RowStep r (if b then change r else r)
updated-RowStep true change r k = k refl
updated-RowStep false change r k = idle refl

TableStep-row :
    {rows rows' : List DocumentRow} {next next' : ℕ} (i : ℕ) (r : DocumentRow)
    → TableStep rows next rows' next'
    → get_elem? rows i ≡ some r
    → (r' : DocumentRow) × (get_elem? rows' i ≡ some r') × RowStep r r'
TableStep-row {rows} i r (unchanged e _) h = (r, rw e h, idle refl)
TableStep-row {rows} i r (added s e _ _ _ _) h =
    (r, rw e (get_elem?-append rows i r s h), idle refl)
TableStep-row {rows} i r (updated where_clause change e k _) h = (
  if where_clause r then change r else r,
  rw e (get_elem?-update where_clause change rows i r h),
  updated-RowStep (where_clause r) change r (k r),
)

write_all-from :
    (ws : List DocumentWrite) (d : Database) (i : ℕ) (r s : DocumentRow)
    → Evolves r s
    → get_elem? d.documents i ≡ some s
    → (r' : DocumentRow) × (get_elem? (write_all ws d).documents i ≡ some r') × Evolves r r'
unfolding write_all
write_all-from [] d i r s h e = (s, e, h)
write_all-from (w ∷ ws) d i r s h e =
    let (t, e', k) = TableStep-row i s (write-TableStep w d) e in
    write_all-from ws (write w d) i r t (step h k) e'

-- Whatever is written, and whatever fails, a row keeps its place in the table, and what stands there
-- has come from it by deletions and by steps of the state machine, made while the row was live.
pub write_all-Evolves :
    (ws : List DocumentWrite) (d : Database) (i : ℕ) (r : DocumentRow)
    → get_elem? d.documents i ≡ some r
    → (r' : DocumentRow) × (get_elem? (write_all ws d).documents i ≡ some r') × Evolves r r'
write_all-Evolves ws d i r e = write_all-from ws d i r r here e

-- A ready row is final but for its deletion.
abbrev KeepsResult : DocumentRow → DocumentRow → Type 0
KeepsResult r r' =
    (r'.status ≡ ready) × (r'.checksum_sha256 ≡ r.checksum_sha256) × (r'.size_bytes ≡ r.size_bytes)

no_step_from_ready : {s t : DocumentStatus} → StatusStep s t → s ≡ ready → ⊥
no_step_from_ready claim_pending e = cc
no_step_from_ready claim_failed e = cc
no_step_from_ready succeed e = cc
no_step_from_ready give_up e = cc

RowStep-KeepsResult :
    (r : DocumentRow) {s t : DocumentRow} → RowStep s t → KeepsResult r s → KeepsResult r t
RowStep-KeepsResult r (idle e) h = rw e h
RowStep-KeepsResult r (delete same a b c gone) h = (a ∙ h.0, b ∙ h.1, c ∙ h.2)
RowStep-KeepsResult r (advance same l l' k) h = absurd (no_step_from_ready k h.0)

Evolves-KeepsResult : {r t : DocumentRow} → Evolves r t → r.status ≡ ready → KeepsResult r t
Evolves-KeepsResult here e = (e, refl, refl)
Evolves-KeepsResult {r} (step h k) e = RowStep-KeepsResult r k (Evolves-KeepsResult h e)

-- A row that is ready stays ready, with its checksum and its size, whatever is written afterwards:
-- duplicate jobs, late failures and deletions included.
pub ready_is_final :
    (ws : List DocumentWrite) (d : Database) (i : ℕ) (r : DocumentRow)
    → get_elem? d.documents i ≡ some r
    → r.status ≡ ready
    → (r' : DocumentRow) × (get_elem? (write_all ws d).documents i ≡ some r')
      × (r'.status ≡ ready)
      × (r'.checksum_sha256 ≡ r.checksum_sha256)
      × (r'.size_bytes ≡ r.size_bytes)
ready_is_final ws d i r e h =
    let (r', e', k) = write_all-Evolves ws d i r e in
    let final = Evolves-KeepsResult k h in (r', e', final.0, final.1, final.2)

abbrev IsRemoved : DocumentRow → DocumentRow → Type 0
IsRemoved r r' = (r'.deleted_at ≢ none) × (r'.status ≡ r.status)

RowStep-IsRemoved :
    (r : DocumentRow) {s t : DocumentRow} → RowStep s t → IsRemoved r s → IsRemoved r t
RowStep-IsRemoved r (idle e) h = rw e h
RowStep-IsRemoved r (delete same a b c gone) h = (gone, a ∙ h.1)
RowStep-IsRemoved r (advance same l l' k) h = absurd (h.0 l)

Evolves-IsRemoved : {r t : DocumentRow} → Evolves r t → r.deleted_at ≢ none → IsRemoved r t
Evolves-IsRemoved here e = (e, refl)
Evolves-IsRemoved {r} (step h k) e = RowStep-IsRemoved r k (Evolves-IsRemoved h e)

-- A row that is deleted stays deleted, and its status does not move any more.
pub deleted_is_final :
    (ws : List DocumentWrite) (d : Database) (i : ℕ) (r : DocumentRow)
    → get_elem? d.documents i ≡ some r
    → r.deleted_at ≢ none
    → (r' : DocumentRow) × (get_elem? (write_all ws d).documents i ≡ some r')
      × (r'.deleted_at ≢ none)
      × (r'.status ≡ r.status)
deleted_is_final ws d i r e h =
    let (r', e', k) = write_all-Evolves ws d i r e in
    let gone = Evolves-IsRemoved k h in (r', e', gone.0, gone.1)
