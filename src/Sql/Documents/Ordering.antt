-- ===== src/Sql/Documents/Ordering.antt =====
-- ORDER BY id DESC over a WHERE: the ids descend, and the rows are those that meet the WHERE.
use api_example.Prelude.{
  ℕ, suc, ◌+◌, ◌≤◌, ◌<◌, ◌≡◌, refl, ap, ◌∙◌, Bool, true, false, ◌&&◌, List, [], ◌∷◌, arith, length,
  if◌then◌else◌, Bool-cases, inl, inr,
}
use api_example.Prelude.Int.{ℤ, pos, pos_part, neg_part, ltb_ℤ}
use api_example.Prelude.Maps.{All}
use api_example.Sql.{DocumentRow, select, count}
use api_example.Sql.Documents.{insert_by_id, order_by_id_desc}
use api_example.Sql.Documents.Invariant.{Ascending}

-- An id that is below `hi`.
abbrev pub Under : ℤ → DocumentRow → Type 0
Under hi r = pos_part r.id + neg_part hi < pos_part hi + neg_part r.id

-- Ids that descend, each below the one before it, from below `hi`.
abbrev pub Descending : ℤ → List DocumentRow → Type 0
Descending hi [] = Unit
Descending hi (r ∷ rows) = Under hi r × Descending r.id rows

abbrev Over : ℤ → DocumentRow → Type 0
Over lo r = Under r.id (record r { id = lo })

insert_by_id-Over :
    (lo : ℤ) (r : DocumentRow) (rows : List DocumentRow)
    → Over lo r
    → All (Over lo) rows
    → All (Over lo) (insert_by_id r rows)
unfolding insert_by_id
insert_by_id-Over lo r [] h k = (h, tt)
insert_by_id-Over lo r (s ∷ rows) h k = elim (Bool-cases (ltb_ℤ s.id r.id)) [
  | inl e ↦ rw e (h, k)
  | inr e ↦ rw e (k.0, insert_by_id-Over lo r rows h k.1)
]

order_by_id_desc-Over :
    (lo : ℤ) (rows : List DocumentRow) → All (Over lo) rows → All (Over lo) (order_by_id_desc rows)
unfolding order_by_id_desc
order_by_id_desc-Over lo [] h = tt
order_by_id_desc-Over lo (r ∷ rows) h =
    insert_by_id-Over lo r (order_by_id_desc rows) h.0 (order_by_id_desc-Over lo rows h.1)

-- A row whose id is below all others comes last.
insert_by_id-Descending :
    (hi : ℤ) (r : DocumentRow) (rows : List DocumentRow)
    → Under hi r
    → All (Over r.id) rows
    → Descending hi rows
    → Descending hi (insert_by_id r rows)
unfolding insert_by_id
insert_by_id-Descending hi r [] h above k = (h, tt)
insert_by_id-Descending hi r (s ∷ rows) h above k =
    let last : ltb_ℤ s.id r.id ≡ false = ground (arith, above.0) in
    rw last (k.0, insert_by_id-Descending s.id r rows above.0 above.1 k.1)

Ascending-Over :
    (lo' : ℤ) (lo hi : ℕ) (rows : List DocumentRow)
    → pos_part lo' < lo + neg_part lo'
    → Ascending lo hi rows
    → All (Over lo') rows
Ascending-Over lo' lo hi [] h k = tt
Ascending-Over lo' lo hi (r ∷ rows) h k = (
  ground (arith, h, k.0, k.1),
  Ascending-Over lo' (suc (pos_part r.id)) hi rows (omega (arith, h, k.1)) k.2,
)

Ascending-lo : (lo hi : ℕ) (rows : List DocumentRow) → Ascending lo hi rows → lo ≤ hi
Ascending-lo lo hi [] h = h
Ascending-lo lo hi (r ∷ rows) h = omega (arith, h.1, Ascending-lo (suc (pos_part r.id)) hi rows h.2)

Ascending-lower :
    (lo lo' hi : ℕ) (rows : List DocumentRow)
    → lo ≤ lo'
    → Ascending lo' hi rows
    → Ascending lo hi rows
Ascending-lower lo lo' hi [] k h = omega (arith, k, h)
Ascending-lower lo lo' hi (r ∷ rows) k h = (h.0, omega (arith, k, h.1), h.2)

pub select-Ascending :
    (lo hi : ℕ) (p : DocumentRow → Bool) (rows : List DocumentRow)
    → Ascending lo hi rows
    → Ascending lo hi (select p rows)
select-Ascending lo hi p [] h = h
select-Ascending lo hi p (r ∷ rows) h =
    keep (p r) (select-Ascending (suc (pos_part r.id)) hi p rows h.2)
  where
    keep :
        (b : Bool)
        → Ascending (suc (pos_part r.id)) hi (select p rows)
        → Ascending lo hi (if b then r ∷ select p rows else select p rows)
    keep true ih = (h.0, h.1, ih)
    keep false ih =
        Ascending-lower lo (suc (pos_part r.id)) hi (select p rows) (omega (arith, h.1)) ih

pub order_by_id_desc-Descending :
    (lo hi : ℕ) (rows : List DocumentRow)
    → Ascending lo hi rows
    → Descending (pos hi) (order_by_id_desc rows)
unfolding order_by_id_desc
order_by_id_desc-Descending lo hi [] h = tt
order_by_id_desc-Descending lo hi (r ∷ rows) h =
    let below = Ascending-lo (suc (pos_part r.id)) hi rows h.2 in
    insert_by_id-Descending (pos hi) r (order_by_id_desc rows) (ground (arith, below, h.0))
      (order_by_id_desc-Over r.id rows
        (Ascending-Over r.id (suc (pos_part r.id)) hi rows (ground (arith, h.0)) h.2))
      (order_by_id_desc-Descending (suc (pos_part r.id)) hi rows h.2)

-- Ordering loses and invents no row.
count-insert_by_id :
    (p : DocumentRow → Bool) (r : DocumentRow) (rows : List DocumentRow)
    → count p (insert_by_id r rows) ≡ count p (r ∷ rows)
unfolding insert_by_id
count-insert_by_id p r [] = refl
count-insert_by_id p r (s ∷ rows) = elim (Bool-cases (ltb_ℤ s.id r.id)) [
  | inl e ↦ rw e refl
  | inr e ↦ rw e (ground (arith, count-insert_by_id p r rows))
]

pub count-order_by_id_desc :
    (p : DocumentRow → Bool) (rows : List DocumentRow)
    → count p (order_by_id_desc rows) ≡ count p rows
unfolding order_by_id_desc
count-order_by_id_desc p [] = refl
count-order_by_id_desc p (r ∷ rows) =
    count-insert_by_id p r (order_by_id_desc rows) ∙ ground (arith, count-order_by_id_desc p rows)

pub count-select :
    (p q : DocumentRow → Bool) (rows : List DocumentRow)
    → count p (select q rows) ≡ count (λ r. q r && p r) rows
count-select p q [] = refl
count-select p q (r ∷ rows) = elim (Bool-cases (q r)) [
  | inl e ↦ rw e (ground (arith, count-select p q rows))
  | inr e ↦ rw e (count-select p q rows)
]

pub count-all : (rows : List DocumentRow) → count (λ r. true) rows ≡ length rows
count-all [] = refl
count-all (r ∷ rows) = ap suc (count-all rows)

pub count_select :
    (q : DocumentRow → Bool) (rows : List DocumentRow)
    → count q rows ≡ count (λ r. true) (select q rows)
count_select q [] = refl
count_select q (r ∷ rows) = elim (Bool-cases (q r)) [
  | inl e ↦ rw e (ap suc (count_select q rows))
  | inr e ↦ rw e (count_select q rows)
]
