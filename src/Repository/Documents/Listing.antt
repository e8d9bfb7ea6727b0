-- ===== src/Repository/Documents/Listing.antt =====
-- What `List` finds.
use api_example.Prelude.{
  ◌≡◌, sym, ap, ◌∙◌, Bool, true, false, ◌&&◌, Option, none, some, List, [], arith, map, take, drop,
  length,
}
use api_example.Prelude.Int.{ℤ, pos, pos_part, ◌≤ℤ◌, int_eq}
use api_example.Exec.{ok, return, ◌>>=◌}
use api_example.Exec.Rules.{bind-ok}
use api_example.Domain.Pagination.{Pagination, limit, offset}
use api_example.Sql.{DocumentRow, Database, select, count}
use api_example.Sql.Documents.{
  is_live, is_live_of, order_by_id_desc, window, list_all_documents, count_all_documents,
  list_documents_by_owner, count_documents_by_owner,
}
use api_example.Sql.Documents.Ordering.{
  Descending, order_by_id_desc-Descending, select-Ascending, count-order_by_id_desc, count-select,
  count-all, count_select,
}
use api_example.Sql.Documents.Invariant.{IsValid}
use api_example.Repository.Documents.{document_from_db, list, list_rows}
use api_example.Repository.Documents.Claims.{statement-quiet}

-- The rows that a listing is about: those that are not deleted, of the owner if one is asked for.
abbrev pub listed : Option ℤ → DocumentRow → Bool
listed none r = elim r.deleted_at [ none ↦ true | some _ ↦ false ]
listed (some owner_id) r =
    int_eq r.owner_id owner_id && elim r.deleted_at [ none ↦ true | some _ ↦ false ]

-- The rows of the table on a page.
abbrev pub page_rows : Option ℤ → Pagination → Database → List DocumentRow
page_rows owner page d =
    take (pos_part (limit page))
      (drop (pos_part (offset page)) (order_by_id_desc (select (listed owner) d.documents)))

window_lem :
    (limit offset : ℤ) (rows : List DocumentRow)
    → pos 0 ≤ℤ limit
    → pos 0 ≤ℤ offset
    → window limit offset rows ≡ ok (take (pos_part limit) (drop (pos_part offset) rows))
unfolding window
window_lem limit offset rows h k = ground arith

rows_lem :
    (owner : Option ℤ) (page : Pagination) (d : Database)
    → d.faults ≡ []
    → pos 0 ≤ℤ limit page
    → pos 0 ≤ℤ offset page
    → list_rows owner page d ≡ (ok (page_rows owner page d, count (listed owner) d.documents), d)
unfolding list_all_documents count_all_documents list_documents_by_owner count_documents_by_owner
rows_lem none page d f h k =
    bind-ok (list_all_documents (limit page) (offset page))
      (λ rows. count_all_documents >>= λ total. return (rows, total)) d d (page_rows none page d)
      (statement-quiet
          (λ e.
            (window (limit page) (offset page) (order_by_id_desc (select is_live e.documents)), e))
          d f
        ∙ rw (
            window_lem (limit page) (offset page) (order_by_id_desc (select is_live d.documents)) h
              k))
    ∙ bind-ok count_all_documents (λ total. return (page_rows none page d, total)) d d
        (count is_live d.documents) (statement-quiet (λ e. (ok (count is_live e.documents), e)) d f)
rows_lem (some owner_id) page d f h k =
    bind-ok (list_documents_by_owner owner_id (limit page) (offset page))
      (λ rows. count_documents_by_owner owner_id >>= λ total. return (rows, total)) d d
      (page_rows (some owner_id) page d)
      (statement-quiet
          (λ e. (
            window (limit page) (offset page)
                (order_by_id_desc (select (is_live_of owner_id) e.documents)),
            e,
          ))
          d f
        ∙ rw (
            window_lem (limit page) (offset page)
              (order_by_id_desc (select (is_live_of owner_id) d.documents)) h k))
    ∙ bind-ok (count_documents_by_owner owner_id)
        (λ total. return (page_rows (some owner_id) page d, total)) d d
        (count (is_live_of owner_id) d.documents)
        (statement-quiet (λ e. (ok (count (is_live_of owner_id) e.documents), e)) d f)

-- In a valid database, with no failure, and with an offset and a limit that are not negative, `List`
-- finds a page of all rows of the table that are not deleted, and of the owner if one is asked for: in
-- the order of descending ids, it is what is left after the first `offset` of them, up to `limit`; and
-- the total is the number of all of them. That they are all such rows, each as often as in the table,
-- is said by counting the rows that pass any test.
pub list_lem :
    (owner : Option ℤ) (page : Pagination) (d : Database)
    → IsValid d
    → d.faults ≡ []
    → pos 0 ≤ℤ limit page
    → pos 0 ≤ℤ offset page
    → (ordered : List DocumentRow) × (list owner page d ≡ (
      ok (
        map document_from_db (take (pos_part (limit page)) (drop (pos_part (offset page)) ordered)),
        pos (length ordered),
      ),
      d,
    ))
      × Descending (pos d.next_document) ordered
      × ((test : DocumentRow → Bool)
          → count test ordered ≡ count (λ r. listed owner r && test r) d.documents)
unfolding list
list_lem owner page d v f h k = (
  ordered,
  bind-ok (list_rows owner page) (λ found. return (map document_from_db found.0, pos found.1)) d d
        (page_rows owner page d, count (listed owner) d.documents) (rows_lem owner page d f h k)
      ∙ ap (λ n. (ok (map document_from_db (page_rows owner page d), pos n), d)) total,
  order_by_id_desc-Descending 1 d.next_document found
      (select-Ascending 1 d.next_document (listed owner) d.documents v),
  λ test. count-order_by_id_desc test found ∙ count-select test (listed owner) d.documents,
)
  where
    found : List DocumentRow
    found = select (listed owner) d.documents

    ordered : List DocumentRow
    ordered = order_by_id_desc found

    total : count (listed owner) d.documents ≡ length ordered
    total =
        count_select (listed owner) d.documents
        ∙ sym (count-order_by_id_desc (λ r. true) found)
        ∙ count-all ordered
