-- ===== src/Database/Memory.antt =====
-- A table in memory.
use b2b_app.Prelude.{
  Bool, true, Option, none, any, Bool-cases, inl, inr, ◌≡◌, refl, not, some, List, [], ◌∷◌, ◌++◌,
  map, if◌then◌else◌, find, keep, tally,
}
use b2b_app.Database.{Table}

pub append_made :
    {Row : Type 0} (r : Row) (s s' : List Row) → some (s ++ r ∷ []) ≡ some s' → s' ≡ s ++ r ∷ []
append_made r s s' e = cc

-- No constraint on its rows.
abbrev pub listed : (Row : Type 0) → Table Row
listed Row = record {
  State = List Row;
  rows = λ s. s;
  create = λ r s. some (s ++ r ∷ []);
  update_many = λ p f s. (tally p s, map (λ r. if p r then f r else r) s);
  delete_many = λ p s. (tally p s, keep (λ r. not (p r)) s);
  find_first = λ p s. find p s;
  rows-create = append_made;
  rows-update_many = λ p f s. refl;
  count-update_many = λ p f s. refl;
  rows-delete_many = λ p s. refl;
  find_first-rows = λ p s. refl;
}

-- A row that clashes with one of the table's is refused.
abbrev pub insert : {Row : Type 0} → (Row → Row → Bool) → Row → List Row → Option (List Row)
insert clash r s = if any (clash r) s then none else some (s ++ r ∷ [])

pub insert-made :
    {Row : Type 0} (clash : Row → Row → Bool) (r : Row) (s s' : List Row)
    → insert clash r s ≡ some s'
    → s' ≡ s ++ r ∷ []
insert-made clash r s s' e = elim (Bool-cases (any (clash r) s)) [
  | inl taken ↦ let h = rw taken at e in cc
  | inr free ↦ let h = rw free at e in cc
]

pub insert_refused :
    {Row : Type 0} (clash : Row → Row → Bool) (r : Row) (s : List Row)
    → any (clash r) s ≡ true
    → insert clash r s ≡ none
insert_refused clash r s h = rw h refl

abbrev pub keyed : {Row : Type 0} → (Row → Row → Bool) → Table Row
keyed {Row = Row} clash = record {
  State = List Row;
  rows = λ s. s;
  create = insert clash;
  update_many = λ p f s. (tally p s, map (λ r. if p r then f r else r) s);
  delete_many = λ p s. (tally p s, keep (λ r. not (p r)) s);
  find_first = λ p s. find p s;
  rows-create = insert-made clash;
  rows-update_many = λ p f s. refl;
  count-update_many = λ p f s. refl;
  rows-delete_many = λ p s. refl;
  find_first-rows = λ p s. refl;
}
