-- ===== src/Sql/Unique.antt =====
-- Columns without duplicates, and writes to the one row that a query finds.
use agent_fs.Prelude.{
  ◌≡◌, refl, sym, subst, inl, inr, Bool, true, false, some, List, [], ◌∷◌, Text, ◌===◌, eq_of_===,
  arith, any, find?, Bool-cases,
}
use agent_fs.Sql.{update_where}

-- An update after which no row passes that did not before.
pub any-shrinks {ℓ} :
    {A : Type ℓ} (p w : A → Bool) (f : A → A) (rows : List A)
    → ((r : A) → p r ≡ false → p (f r) ≡ false)
    → any p rows ≡ false
    → any p (update_where w f rows) ≡ false
any-shrinks p w f [] h e = refl
any-shrinks p w f (r ∷ rows) h e = ground (arith, h r, any-shrinks p w f rows h)

-- no two rows have the same value in a column
abbrev pub IsUnique {ℓ} : {A : Type ℓ} → (A → Text) → List A → Type 0
IsUnique column [] = Unit
IsUnique column (r ∷ rows) = (any (λ x. column x === column r) rows ≡ false) × IsUnique column rows

pub any_of_found {ℓ} :
    {A : Type ℓ} (p t : A → Bool) (rows : List A) (a : A)
    → ((r : A) → p r ≡ true → t r ≡ true)
    → find? p rows ≡ some a
    → any t rows ≡ true
any_of_found p t [] a impl e = ground arith
any_of_found p t (r ∷ rows) a impl e = ground (arith, impl r, any_of_found p t rows a impl)

pub none_other {ℓ} :
    {A : Type ℓ} (p t : A → Bool) (rows : List A)
    → ((r : A) → p r ≡ true → t r ≡ true)
    → any t rows ≡ false
    → any p rows ≡ false
none_other p t [] impl e = refl
none_other p t (r ∷ rows) impl e = ground (arith, impl r, none_other p t rows impl)

pub found_fails {ℓ} :
    {A : Type ℓ} (p t : A → Bool) (rows : List A) (a : A)
    → any t rows ≡ false
    → find? p rows ≡ some a
    → t a ≡ false
found_fails p t [] a h e = ground arith
found_fails p t (r ∷ rows) a h e = elim (Bool-cases (p r)) [
  | inl here ↦
      let same : r ≡ a = ground (arith, (rw here at e)) in
      subst (λ x. t x ≡ false) same (ground arith)
  | inr other ↦ found_fails p t rows a (ground arith) (rw other at e)
]

-- Of the rows with the value h in a unique column, writing the one that a query finds leaves none
-- of the kind that the write ends.
pub one_left {ℓ} :
    {A : Type ℓ} (column : A → Text) (h : Text) (p q w : A → Bool) (f : A → A) (rows : List A)
    (a : A)
    → ((r : A) → p r ≡ true → column r === h ≡ true)
    → ((r : A) → q r ≡ true → column r === h ≡ true)
    → ((r : A) → q (f r) ≡ false)
    → IsUnique column rows
    → find? p rows ≡ some a
    → w a ≡ true
    → any q (update_where w f rows) ≡ false
one_left column h p q w f [] a hp hq shut u e wa = ground arith
one_left column h p q w f (r ∷ rows) a hp hq shut (new, u) e wa = elim (Bool-cases (p r)) [
  | inl here ↦
      let same : a ≡ r = ground (arith, (rw here at e)) in
      let value : column r ≡ h = eq_of_=== (column r) h (hp r here) in
      let none_else : any (λ x. column x === h) rows ≡ false =
        subst (λ v. any (λ x. column x === v) rows ≡ false) value new in
      let rest : any q (update_where w f rows) ≡ false =
        any-shrinks q w f rows (λ x z. shut x) (none_other q _ rows hq none_else) in
      let written : w r ≡ true = subst (λ x. w x ≡ true) same wa in
      rw written (ground (arith, shut r, rest))
  | inr other ↦
      let found : find? p rows ≡ some a = rw other at e in
      let rest = one_left column h p q w f rows a hp hq shut u found wa in
      let there : any (λ x. column x === h) rows ≡ true = any_of_found p _ rows a hp found in
      let not_here : q r ≡ false = elim (Bool-cases (q r)) [
        | inr differs ↦ differs
        | inl holds ↦
            let value : h ≡ column r = sym (eq_of_=== (column r) h (hq r holds)) in
            let twice : any (λ x. column x === column r) rows ≡ true =
              subst (λ v. any (λ x. column x === v) rows ≡ true) value there in
            ground (arith, twice, new)
      ] in
      ground (arith, shut r, rest, not_here)
]
