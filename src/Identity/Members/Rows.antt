-- ===== src/Identity/Members/Rows.antt =====
-- How the writes to a membership table change the number of admins of a scope. `IsKeyed` is the
-- primary key: no two rows have one scope and one user.
use agent_fs.Prelude.{
  ◌≡◌, ℕ, ◌≤◌, ◌+◌, refl, subst, true, false, some, List, [], ◌∷◌, Text, arith, any, if◌then◌else◌,
  ===_iff, ◌===◌, Bool-cases, inl, inr,
}
use agent_fs.Sql.{update_where, delete_where, count_where}
use agent_fs.Identity.{Role, admin, is_admin, Member, is_row, role_of}
use agent_fs.Identity.Members.{is_admin_of, set_role, delete_from_drives}

abbrev pub IsKeyed : List Member → Type 0
IsKeyed [] = Unit
IsKeyed (m ∷ rows) = (any (is_row m.scope m.user) rows ≡ false) × IsKeyed rows

abbrev pub admins : Text → List Member → ℕ
admins scope rows = count_where (is_admin_of scope) rows

module _ (s u : Text) where
  pub delete_absent :
      (rows : List Member) → any (is_row s u) rows ≡ false → delete_where (is_row s u) rows ≡ rows
  delete_absent [] h = refl
  delete_absent (m ∷ rows) h = ground (arith, delete_absent rows)

  any-delete :
      (s' u' : Text) (rows : List Member)
      → any (is_row s' u') rows ≡ false
      → any (is_row s' u') (delete_where (is_row s u) rows) ≡ false
  any-delete s' u' [] h = h
  any-delete s' u' (m ∷ rows) h = ground (arith, any-delete s' u' rows)

  pub delete-IsKeyed :
      (rows : List Member) → IsKeyed rows → IsKeyed (delete_where (is_row s u) rows)
  delete-IsKeyed [] h = h
  delete-IsKeyed (m ∷ rows) (new, h) =
      ground (arith, any-delete m.scope m.user rows new, delete-IsKeyed rows h)

  absent :
      (m : Member) (rows : List Member)
      → is_row s u m ≡ true
      → any (is_row m.scope m.user) rows ≡ false
      → any (is_row s u) rows ≡ false
  absent m rows here new =
      let same_scope : m.scope ≡ s = ground (arith, ===_iff m.scope s) in
      let same_user : m.user ≡ u = ground (arith, ===_iff m.user u) in
      subst (λ x. any (is_row x u) rows ≡ false) same_scope
        (subst (λ x. any (is_row m.scope x) rows ≡ false) same_user new)

  -- The admins of the key's scope are those of the other rows, and one if the row is an admin.
  pub admins_without :
      (r : Role) (rows : List Member)
      → IsKeyed rows
      → role_of s u rows ≡ some r
      → admins s rows
        ≡ admins s (delete_where (is_row s u) rows) + (if is_admin (some r) then 1 else 0)
  unfolding role_of
  admins_without r [] h e = ground arith
  admins_without r (m ∷ rows) (new, h) e = elim (Bool-cases (is_row s u m)) [
    | inl here ↦ ground (arith, delete_absent rows (absent m rows here new), ===_iff m.scope s)
    | inr other ↦ ground (arith, admins_without r rows h)
  ]

  -- Writing a role to the row keeps the others, and counts the row if the role is admin.
  pub admins-set_role :
      (r : Role) (rows : List Member)
      → admins s (delete_where (is_row s u) rows) ≤ admins s (set_role s u r rows)
  admins-set_role r [] = omega arith
  admins-set_role r (m ∷ rows) = ground (arith, admins-set_role r rows)

  pub admins-set_admin : (rows : List Member) → admins s rows ≤ admins s (set_role s u admin rows)
  admins-set_admin [] = omega arith
  admins-set_admin (m ∷ rows) = ground (arith, admins-set_admin rows)

  -- Writes in one scope leave the admins of any other alone.
  pub admins-set_role_other :
      (s' : Text) (r : Role) (rows : List Member)
      → s === s' ≡ false
      → admins s' (set_role s u r rows) ≡ admins s' rows
  admins-set_role_other s' r [] h = refl
  admins-set_role_other s' r (m ∷ rows) h =
      ground (
        arith,
        admins-set_role_other s' r rows,
        ===_iff m.scope s,
        ===_iff m.scope s',
        ===_iff s s',
      )

  pub admins-delete_other :
      (s' : Text) (rows : List Member)
      → s === s' ≡ false
      → admins s' (delete_where (is_row s u) rows) ≡ admins s' rows
  admins-delete_other s' [] h = refl
  admins-delete_other s' (m ∷ rows) h =
      ground
        (arith, admins-delete_other s' rows, ===_iff m.scope s, ===_iff m.scope s', ===_iff s s')

  any-update :
      (s' u' : Text) (f : Role → Role) (rows : List Member)
      → any (is_row s' u') (update_where (is_row s u) (λ m. record m { role = f m.role }) rows)
        ≡ any (is_row s' u') rows
  any-update s' u' f [] = refl
  any-update s' u' f (m ∷ rows) = ground (arith, any-update s' u' f rows)

  -- Whatever role is written, and from which, the key stays one.
  pub update-IsKeyed :
      (f : Role → Role) (rows : List Member)
      → IsKeyed rows
      → IsKeyed (update_where (is_row s u) (λ m. record m { role = f m.role }) rows)
  update-IsKeyed f [] h = h
  update-IsKeyed f (m ∷ rows) (new, h) =
      ground (arith, any-update m.scope m.user f rows, update-IsKeyed f rows h)

  pub admins-update :
      (s' : Text) (f : Role → Role) (rows : List Member)
      → f admin ≡ admin
      → admins s' rows
        ≤ admins s' (update_where (is_row s u) (λ m. record m { role = f m.role }) rows)
  admins-update s' f [] e = omega arith
  admins-update s' f (m ∷ rows) e = ground (arith, admins-update s' f rows e)

  admins-delete-le :
      (s' : Text) (rows : List Member) → admins s' (delete_where (is_row s u) rows) ≤ admins s' rows
  admins-delete-le s' [] = omega arith
  admins-delete-le s' (m ∷ rows) = ground (arith, admins-delete-le s' rows)

  -- Deleting a user's rows in several scopes.
  delete_twice :
      (s' : Text) (rows : List Member)
      → admins s' (delete_where (is_row s' u) (delete_where (is_row s u) rows))
        ≡ admins s' (delete_where (is_row s' u) rows)
  delete_twice s' [] = refl
  delete_twice s' (m ∷ rows) =
      ground (arith, delete_twice s' rows, ===_iff m.scope s, ===_iff m.scope s')

module _ (u : Text) where
  pub admins-delete_from_drives :
      (s' : Text) (ds : List Text) (rows : List Member)
      → admins s' (delete_where (is_row s' u) rows) ≤ admins s' (delete_from_drives u ds rows)
  unfolding delete_from_drives
  admins-delete_from_drives s' [] rows = admins-delete-le s' u s' rows
  admins-delete_from_drives s' (d ∷ ds) rows = omega (
    arith,
    delete_twice d u s' rows,
    admins-delete_from_drives s' ds (delete_where (is_row d u) rows),
  )

  pub admins-delete_elsewhere :
      (s' : Text) (ds : List Text) (rows : List Member)
      → any (λ d. d === s') ds ≡ false
      → admins s' (delete_from_drives u ds rows) ≡ admins s' rows
  unfolding delete_from_drives
  admins-delete_elsewhere s' [] rows h = refl
  admins-delete_elsewhere s' (d ∷ ds) rows h = ground (
    arith,
    admins-delete_elsewhere s' ds (delete_where (is_row d u) rows),
    admins-delete_other d u s' rows,
  )

  pub delete_from_drives-IsKeyed :
      (ds : List Text) (rows : List Member) → IsKeyed rows → IsKeyed (delete_from_drives u ds rows)
  unfolding delete_from_drives
  delete_from_drives-IsKeyed [] rows h = h
  delete_from_drives-IsKeyed (d ∷ ds) rows h =
      delete_from_drives-IsKeyed ds (delete_where (is_row d u) rows) (delete-IsKeyed d u rows h)
