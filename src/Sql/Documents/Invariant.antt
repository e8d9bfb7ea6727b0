-- ===== src/Sql/Documents/Invariant.antt =====
-- The invariant of the table documents: the ids ascend in the order of insertion and stay below the
-- next value of the sequence. It makes the id a key: a WHERE on it finds one row at most.
use api_example.Prelude.{
  ℕ, suc, ◌≤◌, ◌<◌, ◌≡◌, refl, Bool, true, false, List, [], ◌∷◌, ◌++◌, arith, if◌then◌else◌,
}
use api_example.Prelude.Int.{ℤ, pos, pos_part, int_eq_iff}
use api_example.Sql.{DocumentRow, Database, update, count}
use api_example.Sql.Documents.{has_id}
use api_example.Sql.Documents.Lifecycle.{
  RowStep, idle, delete, advance, TableStep, unchanged, added, updated, DocumentWrite, write,
  write_all, write-TableStep,
}

-- Ids from `lo` on, each above the one before it, and all below `hi`.
abbrev pub Ascending : ℕ → ℕ → List DocumentRow → Type 0
Ascending lo hi [] = lo ≤ hi
Ascending lo hi (r ∷ rows) =
    (r.id ≡ pos (pos_part r.id)) × (lo ≤ pos_part r.id) × Ascending (suc (pos_part r.id)) hi rows

abbrev pub IsValid : Database → Type 0
IsValid d = Ascending 1 d.next_document d.documents

Ascending-le :
    (lo hi hi' : ℕ) (rows : List DocumentRow)
    → hi ≤ hi'
    → Ascending lo hi rows
    → Ascending lo hi' rows
Ascending-le lo hi hi' [] k h = omega arith
Ascending-le lo hi hi' (r ∷ rows) k h =
    (h.0, h.1, Ascending-le (suc (pos_part r.id)) hi hi' rows k h.2)

Ascending-append :
    (lo hi : ℕ) (rows : List DocumentRow) (r : DocumentRow)
    → r.id ≡ pos hi
    → Ascending lo hi rows
    → Ascending lo (suc hi) (rows ++ r ∷ [])
Ascending-append lo hi [] r e h = ground arith
Ascending-append lo hi (s ∷ rows) r e h =
    (h.0, h.1, Ascending-append (suc (pos_part s.id)) hi rows r e h.2)

RowStep-id : {r r' : DocumentRow} → RowStep r r' → r'.id ≡ r.id
RowStep-id (idle e) = rw e
RowStep-id (delete same _ _ _ _) = same.same_id
RowStep-id (advance same _ _ _) = same.same_id

Ascending-update :
    (lo hi : ℕ) (where_clause : DocumentRow → Bool) (change : DocumentRow → DocumentRow)
    (rows : List DocumentRow)
    → ((r : DocumentRow) → where_clause r ≡ true → RowStep r (change r))
    → Ascending lo hi rows
    → Ascending lo hi (update where_clause change rows)
Ascending-update lo hi where_clause change [] k h = h
Ascending-update lo hi where_clause change (r ∷ rows) k h =
    keep (where_clause r) (λ e. RowStep-id (k r e))
      (Ascending-update (suc (pos_part r.id)) hi where_clause change rows k h.2)
  where
    keep :
        (b : Bool)
        → (b ≡ true → (change r).id ≡ r.id)
        → Ascending (suc (pos_part r.id)) hi (update where_clause change rows)
        → Ascending lo hi ((if b then change r else r) ∷ update where_clause change rows)
    keep true e t = rw (e refl) (h.0, h.1, t)
    keep false e t = (h.0, h.1, t)

TableStep-Ascending :
    {rows rows' : List DocumentRow} {next next' : ℕ}
    → TableStep rows next rows' next'
    → Ascending 1 next rows
    → Ascending 1 next' rows'
TableStep-Ascending {rows} {rows'} {next} {next'} (unchanged e k) h =
    rw e (Ascending-le 1 next next' rows k h)
TableStep-Ascending {rows} {rows'} {next} (added r e i _ _ n) h =
    rw (e, n) (Ascending-append 1 next rows r i h)
TableStep-Ascending {rows} {rows'} {next} (updated where_clause change e k n) h =
    rw (e, n) (Ascending-update 1 next where_clause change rows k h)

-- Whatever is written, and whatever fails, the ids ascend in the order of insertion and stay below
-- the next one to be drawn.
pub write_all-IsValid :
    (ws : List DocumentWrite) (d : Database) → IsValid d → IsValid (write_all ws d)
unfolding write_all
write_all-IsValid [] d h = h
write_all-IsValid (w ∷ ws) d h =
    write_all-IsValid ws (write w d) (TableStep-Ascending (write-TableStep w d) h)

pub count-above :
    (lo hi : ℕ) (id : ℤ) (rows : List DocumentRow)
    → Ascending lo hi rows
    → pos_part id < lo
    → count (has_id id) rows ≡ 0
count-above lo hi id [] h k = refl
count-above lo hi id (r ∷ rows) h k =
    ground (arith, count-above (suc (pos_part r.id)) hi id rows h.2, int_eq_iff r.id id)

-- An id is a key of the table.
pub count-has_id :
    (lo hi : ℕ) (id : ℤ) (rows : List DocumentRow)
    → Ascending lo hi rows
    → count (has_id id) rows ≤ 1
count-has_id lo hi id [] h = omega arith
count-has_id lo hi id (r ∷ rows) h = ground (
  arith,
  count-above (suc (pos_part r.id)) hi id rows h.2,
  count-has_id (suc (pos_part r.id)) hi id rows h.2,
  int_eq_iff r.id id,
)
