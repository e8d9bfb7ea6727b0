-- ===== src/Sql/Documents/Queries.antt =====
-- What the queries find: rows by their id, after a claim and after a deletion.
use api_example.Prelude.{ℕ, ◌≤◌, ◌≡◌, refl, Bool, true, List, [], ◌∷◌, arith, Bool-cases, inl, inr}
use api_example.Prelude.Int.{ℤ}
use api_example.Prelude.Maps.{All}
use api_example.Sql.{DocumentRow, update, count, select}
use api_example.Sql.Documents.{has_id, has_live_id, is_claimable, set_processing, set_deleted}

-- A WHERE that asks for more finds no more rows.
pub count_le :
    (p q : DocumentRow → Bool) (rows : List DocumentRow)
    → ((r : DocumentRow) → p r ≡ true → q r ≡ true)
    → count p rows ≤ count q rows
count_le p q [] k = omega arith
count_le p q (r ∷ rows) k = ground (arith, k r, count_le p q rows k)

-- After a claim no row of the id can be claimed.
pub count-claimed :
    (id : ℤ) (now : ℕ) (rows : List DocumentRow)
    → count (is_claimable id) (update (is_claimable id) (set_processing now) rows) ≡ 0
count-claimed id now [] = refl
count-claimed id now (r ∷ rows) = elim (Bool-cases (is_claimable id r)) [
  | inl e ↦ rw e (ground (arith, count-claimed id now rows))
  | inr e ↦ rw e (rw e (count-claimed id now rows))
]

-- After a deletion no row of the id is found.
pub select-deleted :
    (id : ℤ) (now : ℕ) (rows : List DocumentRow)
    → select (has_live_id id) (update (has_id id) (set_deleted now) rows) ≡ []
select-deleted id now [] = refl
select-deleted id now (r ∷ rows) = elim (Bool-cases (has_id id r)) [
  | inl e ↦ rw e (ground (arith, select-deleted id now rows))
  | inr e ↦ rw e (ground (arith, select-deleted id now rows))
]

abbrev pub Meets : (DocumentRow → Bool) → DocumentRow → Type 0
Meets p r = p r ≡ true

-- What a SELECT returns meets its WHERE.
pub select-Meets :
    (p : DocumentRow → Bool) (rows : List DocumentRow) → All (Meets p) (select p rows)
select-Meets p [] = tt
select-Meets p (r ∷ rows) = ground (arith, select-Meets p rows)
