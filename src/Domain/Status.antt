-- ===== src/Domain/Status.antt =====
-- `DocumentStatus` of internal/domain/document.go. The column's CHECK constraint admits the four
-- strings alone, so a row holds one of the four constructors; `is_valid` reads any string.
use api_example.Prelude.{
  String, ◌≡◌, ◌↔◌, Bool, true, false, inl, inr, arith, str_eq, str_eq_iff, ◌||◌, Bool-cases,
}

pub data DocumentStatus : Type 0 where
  pending processing ready failed : DocumentStatus

unfoldable pub status_text : DocumentStatus → String
status_text pending = "pending"
status_text processing = "processing"
status_text ready = "ready"
status_text failed = "failed"

-- `DocumentStatus.Valid`
unfoldable pub is_valid : String → Bool
is_valid s = str_eq s "pending" || str_eq s "processing" || str_eq s "ready" || str_eq s "failed"

-- The operator == on statuses.
abbrev pub status_eq : DocumentStatus → DocumentStatus → Bool
status_eq pending pending = true
status_eq processing processing = true
status_eq ready ready = true
status_eq failed failed = true
status_eq _ _ = false

-- `Valid` accepts a string exactly when it is the text of one of the four statuses.
pub is_valid_iff : (s : String) → (is_valid s ≡ true) ↔ ((d : DocumentStatus) × (s ≡ status_text d))
unfolding is_valid status_text
is_valid_iff s = (to, from)
  where
    to : is_valid s ≡ true → (d : DocumentStatus) × (s ≡ status_text d)
    to h = elim (Bool-cases (str_eq s "pending")) [
      | inl e ↦ (pending, (str_eq_iff s "pending").0 e)
      | inr n ↦ elim (Bool-cases (str_eq s "processing")) [
        | inl e ↦ (processing, (str_eq_iff s "processing").0 e)
        | inr n' ↦ elim (Bool-cases (str_eq s "ready")) [
          | inl e ↦ (ready, (str_eq_iff s "ready").0 e)
          | inr n'' ↦ (failed, (str_eq_iff s "failed").0 (ground arith))
        ]
      ]
    ]

    from : (d : DocumentStatus) × (s ≡ status_text d) → is_valid s ≡ true
    from (pending, e) = rw e
    from (processing, e) = rw e
    from (ready, e) = rw e
    from (failed, e) = rw e
