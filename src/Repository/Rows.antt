-- ===== src/Repository/Rows.antt =====
-- Lists of rows behind an insertion, an update and a deletion: tests that all of them pass, and keys
-- that occur once.
use b2b_app.Prelude.{
  ◌+◌, ◌≤◌, ◌≡◌, refl, ap, ◌∙◌, Bool, true, false, some, List, [], ◌∷◌, ◌++◌, map, if◌then◌else◌,
  all, any, find, keep, tally, arith, Bool-cases, inl, inr,
}

module _ {A : Type 0} where
  pub tally-map :
      (p : A → Bool) (f : A → A) (xs : List A)
      → ((x : A) → p (f x) ≡ p x)
      → tally p (map f xs) ≡ tally p xs
  tally-map p f [] same = refl
  tally-map p f (x ∷ xs) same =
      rw (same x) (ap (λ n. (if p x then 1 else 0) + n) (tally-map p f xs same))

  pub tally-keep : (p q : A → Bool) (xs : List A) → tally p (keep q xs) ≤ tally p xs
  tally-keep p q [] = omega arith
  tally-keep p q (x ∷ xs) = ground (arith, tally-keep p q xs)

  pub all-keep : (p q : A → Bool) (xs : List A) → all p xs ≡ true → all p (keep q xs) ≡ true
  all-keep p q [] h = refl
  all-keep p q (x ∷ xs) h = ground (arith, all-keep p q xs)

  pub all-append :
      (p : A → Bool) (xs ys : List A) → all p xs ≡ true → all p ys ≡ true → all p (xs ++ ys) ≡ true
  all-append p [] ys h g = g
  all-append p (x ∷ xs) ys h g = ground (arith, all-append p xs ys)

  pub tally_of_none : (p : A → Bool) (xs : List A) → any p xs ≡ false → tally p xs ≡ 0
  tally_of_none p [] h = refl
  tally_of_none p (x ∷ xs) h = ground (arith, tally_of_none p xs)

  module _ (s h : A → Bool) (f : A → A) where
    abbrev pub updated : A → A
    updated x = if h x then f x else x

    updated_passes :
        (x : A) (b : Bool) → s (f x) ≡ true → s x ≡ true → s (if b then f x else x) ≡ true
    updated_passes x true fine old = fine
    updated_passes x false fine old = old

    pub all-updated :
        (xs : List A) → ((x : A) → s (f x) ≡ true) → all s xs ≡ true → all s (map updated xs) ≡ true
    all-updated [] fine old = refl
    all-updated (x ∷ xs) fine old =
        rw (updated_passes x (h x) (fine x) (ground arith)) (all-updated xs fine (ground arith))

    same_unheld : (xs : List A) → tally h xs ≤ 0 → all s xs ≡ true → all s (map updated xs) ≡ true
    same_unheld [] none_held old = refl
    same_unheld (x ∷ xs) none_held old =
        let free : h x ≡ false = ground arith in
        let here : s x ≡ true = ground arith in
        rw (free, here) (same_unheld xs (ground arith) (ground arith))

    -- The one element that is updated is the one that a search found.
    pub all-updated_found :
        (p : A → Bool) (xs : List A) {a : A}
        → ((x : A) → p x ≡ true → h x ≡ true)
        → tally h xs ≤ 1
        → find p xs ≡ some a
        → s (f a) ≡ true
        → all s xs ≡ true
        → all s (map updated xs) ≡ true
    all-updated_found p [] held once e fine old = refl
    all-updated_found p (x ∷ xs) {a = a} held once e fine old = elim (Bool-cases (p x)) [
      | inl hit ↦
          let e' : some x ≡ some a = rw hit at e in
          let same : x ≡ a = cc in
          let mine = held x hit in
          rw (mine, ap (λ y. s (f y)) same ∙ fine) (same_unheld xs (ground arith) (ground arith))
      | inr miss ↦
          let e' : find p xs ≡ some a = rw miss at e in
          let here : s x ≡ true = ground arith in
          let more : 1 ≤ tally h xs = found_held xs e' in
          let free : h x ≡ false = ground arith in
          rw (free, here) (all-updated_found p xs held (ground arith) e' fine (ground arith))
    ]
      where
        found_held : (ys : List A) → find p ys ≡ some a → 1 ≤ tally h ys
        found_held [] e' = cc
        found_held (y ∷ ys) e' = elim (Bool-cases (p y)) [
          | inl hit ↦ let mine = held y hit in ground arith
          | inr miss ↦ let more = found_held ys (rw miss at e') in ground arith
        ]
