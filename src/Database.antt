-- ===== src/Database.antt =====
-- A table as the code reaches it through Prisma, the library that talks to PostgreSQL. Its methods
-- are an interface: what they do to the rows is stated, and how is not.
pub mod Memory
use b2b_app.Prelude.{
  ℕ, ◌≡◌, refl, Bool, true, false, not, Option, none, some, List, [], ◌∷◌, ◌++◌, map, if◌then◌else◌,
  keep, all, any, find, tally, arith, Bool-cases, inl, inr,
}

-- `rows` lists a table in the order in which a query without `orderBy` meets its rows.
pub record Table (Row : Type 0) : Type 1 where
  pub State : Type 0
  pub rows : State → List Row
  -- `none` is the refusal of a row that breaks a unique constraint (P2002).
  pub create : Row → State → Option State
  pub update_many : (Row → Bool) → (Row → Row) → State → ℕ × State
  pub delete_many : (Row → Bool) → State → ℕ × State
  pub find_first : (Row → Bool) → State → Option Row
  pub rows-create : (r : Row) (s s' : State) → create r s ≡ some s' → rows s' ≡ rows s ++ r ∷ []
  pub rows-update_many :
      (p : Row → Bool) (f : Row → Row) (s : State)
      → rows (update_many p f s).1 ≡ map (λ r. if p r then f r else r) (rows s)
  pub count-update_many :
      (p : Row → Bool) (f : Row → Row) (s : State) → (update_many p f s).0 ≡ tally p (rows s)
  pub rows-delete_many :
      (p : Row → Bool) (s : State) → rows (delete_many p s).1 ≡ keep (λ r. not (p r)) (rows s)
  pub find_first-rows : (p : Row → Bool) (s : State) → find_first p s ≡ find p (rows s)

module _ {A : Type 0} where
  abbrev pub map_option : {B : Type 0} → (A → B) → Option A → Option B
  map_option f none = none
  map_option f (some a) = some (f a)

  abbrev pub is_none : Option A → Bool
  is_none none = true
  is_none (some a) = false

  -- A search does not mind an update that keeps what it looks for.
  pub find-map :
      (p : A → Bool) (f : A → A) (xs : List A)
      → ((a : A) → p (f a) ≡ p a)
      → find p (map f xs) ≡ map_option f (find p xs)
  find-map p f [] same = refl
  find-map p f (x ∷ xs) same =
      rw (same x)
        (elim (Bool-cases (p x)) [ inl e ↦ rw e refl | inr e ↦ rw e (find-map p f xs same) ])

  pub find-all :
      (p q : A → Bool) (xs : List A) {a : A}
      → all q xs ≡ true
      → find p xs ≡ some a
      → (q a ≡ true) × (p a ≡ true)
  find-all p q [] h e = cc
  find-all p q (x ∷ xs) h e = elim (Bool-cases (p x)) [
    | inl hit ↦ ground arith
    | inr miss ↦ find-all p q xs (ground arith) (rw miss at e)
  ]

  -- A search finds the same element when others are dropped.
  pub find-keep :
      (p q : A → Bool) (xs : List A) {a : A}
      → find p xs ≡ some a
      → q a ≡ true
      → find p (keep q xs) ≡ some a
  find-keep p q [] e h = cc
  find-keep p q (x ∷ xs) e h = elim (Bool-cases (p x)) [
    | inl hit ↦ ground arith
    | inr miss ↦ let later = find-keep p q xs (rw miss at e) h in ground (arith, later)
  ]

  pub find-append :
      (p : A → Bool) (xs ys : List A) → any p xs ≡ false → find p (xs ++ ys) ≡ find p ys
  find-append p [] ys h = refl
  find-append p (x ∷ xs) ys h = ground (arith, find-append p xs ys)
