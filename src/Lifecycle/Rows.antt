-- ===== src/Lifecycle/Rows.antt =====
-- Statements on rows: what an update, a deletion or an upsert does to the rows that a test selects.
use pluris.Prelude.{
  ◌+◌, ◌≤◌, Bool, true, false, some, List, [], ◌∷◌, ◌++◌, if◌then◌else◌, In, ◌≡◌, refl, ◌∙◌, sym,
  inl, inr, arith, Bool-cases,
}
use pluris.Lifecycle.Queries.{update_where, keep_where, delete_where, count, first}

module _ {A : Type 0} where
  pub In-update_where :
      (p : A → Bool) (f : A → A) (w : A) (xs : List A)
      → In w (update_where p f xs)
      → (v : A) × In v xs × (w ≡ (if p v then f v else v))
  In-update_where p f w [] h = absurd h
  In-update_where p f w (x ∷ xs) (inl e) = (x, inl refl, e)
  In-update_where p f w (x ∷ xs) (inr h) =
      let (v, listed, e) = In-update_where p f w xs h in (v, inr listed, e)

  pub In-keep_where :
      (p : A → Bool) (w : A) (xs : List A) → In w (keep_where p xs) → In w xs × (p w ≡ true)
  In-keep_where p w [] h = absurd h
  In-keep_where p w (x ∷ xs) h = ground (arith, In-keep_where p w xs)

  pub keep_where-In :
      (p : A → Bool) (w : A) (xs : List A) → In w xs → p w ≡ true → In w (keep_where p xs)
  keep_where-In p w [] h e = h
  keep_where-In p w (x ∷ xs) h e = ground (arith, keep_where-In p w xs)

  -- The rows that `q` selects after an update were selected by `r` before.
  pub count-update_where_le :
      (p q r : A → Bool) (f : A → A) (xs : List A)
      → ((v : A) → In v xs → q (if p v then f v else v) ≡ true → r v ≡ true)
      → count q (update_where p f xs) ≤ count r xs
  count-update_where_le p q r f [] h = omega arith
  count-update_where_le p q r f (x ∷ xs) h =
      ground (arith, h x (inl refl), count-update_where_le p q r f xs (λ v i. h v (inr i)))

  pub count-keep_where_le : (p q : A → Bool) (xs : List A) → count q (keep_where p xs) ≤ count q xs
  count-keep_where_le p q [] = omega arith
  count-keep_where_le p q (x ∷ xs) = ground (arith, count-keep_where_le p q xs)

  pub count-append : (q : A → Bool) (xs ys : List A) → count q (xs ++ ys) ≡ count q xs + count q ys
  count-append q [] ys = omega arith
  count-append q (x ∷ xs) ys = ground (arith, count-append q xs ys)

  pub count_zero : (q : A → Bool) (xs : List A) → ((v : A) → In v xs → q v ≡ false) → count q xs ≡ 0
  count_zero q [] h = refl
  count_zero q (x ∷ xs) h = ground (arith, h x (inl refl), count_zero q xs (λ v i. h v (inr i)))

  pub In-count : (q : A → Bool) (v : A) (xs : List A) → In v xs → q v ≡ true → 1 ≤ count q xs
  In-count q v [] h e = absurd h
  In-count q v (x ∷ xs) (inl same) e = ground arith
  In-count q v (x ∷ xs) (inr h) e = ground (arith, In-count q v xs h e)

  -- Where a test selects one row at most, the rows that it selects are the same.
  pub count_unique :
      (q : A → Bool) (v w : A) (xs : List A)
      → count q xs ≤ 1
      → In v xs
      → In w xs
      → q v ≡ true
      → q w ≡ true
      → v ≡ w
  count_unique q v w [] one iv iw ev ew = absurd iv
  count_unique q v w (x ∷ xs) one (inl a) (inl b) ev ew = a ∙ sym b
  count_unique q v w (x ∷ xs) one (inl a) (inr iw) ev ew = ground (arith, In-count q w xs iw ew)
  count_unique q v w (x ∷ xs) one (inr iv) (inl b) ev ew = ground (arith, In-count q v xs iv ev)
  count_unique q v w (x ∷ xs) one (inr iv) (inr iw) ev ew = ground (arith, count_unique q v w xs)

  pub first-In : (p : A → Bool) (xs : List A) (v : A) → first p xs ≡ some v → In v xs × (p v ≡ true)
  first-In p [] v e = cc
  first-In p (x ∷ xs) v e = ground (arith, first-In p xs v)

  pub count-nonzero :
      (q : A → Bool) (xs : List A) → 1 ≤ count q xs → (v : A) × In v xs × (q v ≡ true)
  count-nonzero q [] h = ground arith
  count-nonzero q (x ∷ xs) h = elim (Bool-cases (q x)) [
    | inl passed ↦ (x, inl refl, passed)
    | inr failed ↦ let (v, i, e) = count-nonzero q xs (ground arith) in (v, inr i, e)
  ]

  -- A selection that a statement does not meet stays.
  pub keep_where-delete_where :
      (p q : A → Bool) (xs : List A)
      → ((v : A) → In v xs → p v ≡ true → q v ≡ false)
      → keep_where q (delete_where p xs) ≡ keep_where q xs
  keep_where-delete_where p q [] h = refl
  keep_where-delete_where p q (x ∷ xs) h =
      ground (arith, h x (inl refl), keep_where-delete_where p q xs (λ v i. h v (inr i)))

  pub keep_where-update_where :
      (p q : A → Bool) (f : A → A) (xs : List A)
      → ((v : A) → p v ≡ true → (q v ≡ false) × (q (f v) ≡ false))
      → keep_where q (update_where p f xs) ≡ keep_where q xs
  keep_where-update_where p q f [] h = refl
  keep_where-update_where p q f (x ∷ xs) h = ground (arith, h x, keep_where-update_where p q f xs h)

  pub keep_where-append :
      (q : A → Bool) (xs : List A) (x : A)
      → q x ≡ false
      → keep_where q (xs ++ x ∷ []) ≡ keep_where q xs
  keep_where-append q [] x e = ground arith
  keep_where-append q (y ∷ xs) x e = ground (arith, keep_where-append q xs x e)
