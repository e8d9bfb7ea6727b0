-- ===== src/Storage/Key.antt =====
-- The keys that `validateKey` accepts name an object below the root of the storage.
use api_example.Prelude.{
  ◌≡◌, refl, sym, ap, ◌∙◌, ◌≢◌, ◌⊎◌, inl, inr, Bool, true, false, none, List, [], ◌∷◌, ◌++◌, arith,
}
use api_example.Prelude.Maps.{All}
use api_example.Text.{Text, text_eq_iff, has_prefix}
use api_example.Text.Segments.{split, join, join-split}
use api_example.Text.Path.{slash, dot, dot_dot, is_abs, clean}
use api_example.Text.Path.Normal.{IsEntry, clean-split}
use api_example.Storage.{validate_key, parent_prefix}

-- A text whose segments begin with ".." is "..", or has the prefix "../".
starts_above :
    (key : Text) (rest : List Text)
    → split slash key ≡ dot_dot ∷ rest
    → (key ≡ dot_dot) ⊎ (has_prefix key parent_prefix ≡ true)
unfolding join
starts_above key [] e = inl (sym (join-split slash key) ∙ ap (join slash) e)
starts_above key (x ∷ rest) e = inr (rw same (unfold has_prefix in refl))
  where
    same : key ≡ dot_dot ++ slash ∷ join slash (x ∷ rest)
    same = sym (join-split slash key) ∙ ap (join slash) e

-- A key that is accepted is "..", or each of its segments names an entry of its directory: none is
-- empty, "." or "..".
pub validate_key-accepts :
    (key : Text) → validate_key key ≡ none → (key ≡ dot_dot) ⊎ All IsEntry (split slash key)
unfolding validate_key
validate_key-accepts key h = elim (clean-split key cleaned relative not_dot) [
  | inl entries ↦ inr entries
  | inr (rest, e) ↦ elim (starts_above key rest e) [
    | inl up ↦ inl up
    | inr above ↦ absurd (false_true (sym outside ∙ above))
  ]
]
  where
    cleaned : clean key ≡ key
    cleaned = ground (arith, text_eq_iff (clean key) key)

    relative : is_abs key ≡ false
    relative = ground arith

    not_dot : key ≢ dot
    not_dot = ground (arith, text_eq_iff key dot)

    outside : has_prefix key parent_prefix ≡ false
    outside = ground arith

    false_true : ◌≡◌ {A = Bool} false true → ⊥
    false_true e = cc
