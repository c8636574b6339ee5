-- ===== src/Sql.antt =====
-- The SQL statements that the components run, over a table as the list of its rows. `find?`,
-- `keep_if` and `any` of the prelude are `SELECT … LIMIT 1`, `SELECT` and `EXISTS`. A statement
-- runs alone: SQLite is called synchronously, and each transaction of the source holds its lock.
pub mod Unique
use agent_fs.Prelude.{
  ℕ, ◌≡◌, refl, Bool, true, false, not, ◌&&◌, List, [], ◌∷◌, arith, length, keep_if, any, all,
  if◌then◌else◌,
}

module _ {ℓ} {A : Type ℓ} where
  -- UPDATE … SET f WHERE p
  abbrev pub update_where : (A → Bool) → (A → A) → List A → List A
  update_where p f [] = []
  update_where p f (r ∷ rows) = (if p r then f r else r) ∷ update_where p f rows

  -- DELETE … WHERE p
  abbrev pub delete_where : (A → Bool) → List A → List A
  delete_where p rows = keep_if (λ r. not (p r)) rows

  -- the number of rows that a WHERE clause selects: `changes` of a statement, COUNT(*) of a query
  abbrev pub count_where : (A → Bool) → List A → ℕ
  count_where p rows = length (keep_if p rows)

  -- A statement that selects no row changes nothing.
  pub update_absent :
      (p : A → Bool) (f : A → A) (rows : List A) → any p rows ≡ false → update_where p f rows ≡ rows
  update_absent p f [] h = refl
  update_absent p f (r ∷ rows) h = ground (arith, update_absent p f rows)

  -- A row property that the write gives, and that the rows left alone have already.
  pub all-update :
      (p q : A → Bool) (w : A → Bool) (f : A → A) (rows : List A)
      → ((r : A) → w r ≡ true → p r ≡ true → q (f r) ≡ true)
      → ((r : A) → w r ≡ false → p r ≡ true → q r ≡ true)
      → all p rows ≡ true
      → all q (update_where w f rows) ≡ true
  all-update p q w f [] written kept h = refl
  all-update p q w f (r ∷ rows) written kept h =
      ground (arith, written r, kept r, all-update p q w f rows written kept)

  pub all-impl :
      (p q : A → Bool) (rows : List A)
      → ((r : A) → p r ≡ true → q r ≡ true)
      → all p rows ≡ true
      → all q rows ≡ true
  all-impl p q [] step h = refl
  all-impl p q (r ∷ rows) step h = ground (arith, step r, all-impl p q rows step)

  pub all-delete :
      (p w : A → Bool) (rows : List A) → all p rows ≡ true → all p (delete_where w rows) ≡ true
  all-delete p w [] h = refl
  all-delete p w (r ∷ rows) h = ground (arith, all-delete p w rows)

  -- What holds of the rows that a DELETE keeps may also use that they were not selected.
  pub all-delete_kept :
      (p q w : A → Bool) (rows : List A)
      → ((r : A) → w r ≡ false → p r ≡ true → q r ≡ true)
      → all p rows ≡ true
      → all q (delete_where w rows) ≡ true
  all-delete_kept p q w [] kept h = refl
  all-delete_kept p q w (r ∷ rows) kept h = ground (arith, kept r, all-delete_kept p q w rows kept)

  pub any-keep_if :
      (p q : A → Bool) (rows : List A) → any p (keep_if q rows) ≡ any (λ r. q r && p r) rows
  any-keep_if p q [] = refl
  any-keep_if p q (r ∷ rows) = ground (arith, any-keep_if p q rows)

  -- An update that leaves a test's answer alone on every row.
  pub any-update :
      (p w : A → Bool) (f : A → A) (rows : List A)
      → ((r : A) → p (f r) ≡ p r)
      → any p (update_where w f rows) ≡ any p rows
  any-update p w f [] same = refl
  any-update p w f (r ∷ rows) same = ground (arith, same r, any-update p w f rows same)

  pub all-and :
      (p q : A → Bool) (rows : List A)
      → all p rows ≡ true
      → all q rows ≡ true
      → all (λ r. p r && q r) rows ≡ true
  all-and p q [] hp hq = refl
  all-and p q (r ∷ rows) hp hq = ground (arith, all-and p q rows)

  pub all_of : (p : A → Bool) (rows : List A) → ((r : A) → p r ≡ true) → all p rows ≡ true
  all_of p [] h = refl
  all_of p (r ∷ rows) h = ground (arith, h r, all_of p rows h)
