-- ===== src/Identity/Members/Admins.antt =====
-- Admins of orgs and drives under single writes and deletions of memberships.
use agent_fs.Prelude.{
  ◌≡◌, ◌≤◌, refl, true, false, some, List, [], ◌∷◌, Text, arith, length, keep_if, ◌===◌, Bool-cases,
  Option-cases, inl, inr, leb, leb→le, eq_of_===, subst, ap, ◌∙◌,
}
use agent_fs.Sql.{delete_where}
use agent_fs.Identity.{Role, viewer, editor, admin, Member, is_row, role_of}
use agent_fs.Identity.Grants.Laws.{any-role_of, is_there}
use agent_fs.Identity.Members.{is_admin_of, is_demotion, is_only, is_sole_admin, set_role}
use agent_fs.Identity.Members.Rows

nil_of_length {ℓ} : {A : Type ℓ} (xs : List A) → length xs ≤ 0 → xs ≡ []
nil_of_length [] h = refl
nil_of_length (x ∷ xs) h = absurd (omega arith)

length-is_only : (u : Text) (rows : List Member) → is_only u rows ≡ true → 1 ≤ length rows
length-is_only u [] h = ground arith
length-is_only u (m ∷ rows) h = omega arith

-- Where a user is an admin of the scope and no second admin is, the check names the scope.
sole_admin :
    (s u : Text) (rows : List Member)
    → role_of s u rows ≡ some admin
    → Rows.admins s rows ≤ 1
    → is_sole_admin rows u s ≡ true
unfolding role_of
sole_admin s u [] e h = ground arith
sole_admin s u (m ∷ rows) e h =
    let rest : List Member = keep_if (is_admin_of s) rows in
    ground (arith, sole_admin s u rows, length-is_only u rest, nil_of_length rest)

-- The others of the scope hold an admin, if the row to go is not the last one's.
pub others_admin :
    (s u : Text) (rows : List Member)
    → Rows.IsKeyed rows
    → (role_of s u rows ≡ some admin → 2 ≤ Rows.admins s rows)
    → 1 ≤ Rows.admins s rows
    → 1 ≤ Rows.admins s (delete_where (is_row s u) rows)
others_admin s u rows k two h = elim (Option-cases (role_of s u rows)) [
  | inl gone ↦ rw (Rows.delete_absent s u rows (any-role_of s u rows ∙ ap is_there gone)) h
  | inr (viewer, e) ↦ omega (arith, Rows.admins_without s u viewer rows k e)
  | inr (editor, e) ↦ omega (arith, Rows.admins_without s u editor rows k e)
  | inr (admin, e) ↦ omega (arith, Rows.admins_without s u admin rows k e, two e)
]

-- A check that does not name the scope leaves a second admin.
pub second_admin :
    (s u : Text) (rows : List Member)
    → is_sole_admin rows u s ≡ false
    → role_of s u rows ≡ some admin
    → 2 ≤ Rows.admins s rows
second_admin s u rows h e = elim (Bool-cases (leb (Rows.admins s rows) 1)) [
  | inl few ↦ cc (h, sole_admin s u rows e (leb→le _ _ few))
  | inr many ↦ ground arith
]

-- A write to a membership table keeps its key, and an admin of each scope that had one.
pub record KeepsAdmins (rows rows' : List Member) : Type 0 where
  pub keyed : Rows.IsKeyed rows'
  pub admins : (s : Text) → 1 ≤ Rows.admins s rows → 1 ≤ Rows.admins s rows'

-- What holds in the scope that is written, and in every other one.
by_scope :
    (s : Text) (rows rows' : List Member)
    → (1 ≤ Rows.admins s rows → 1 ≤ Rows.admins s rows')
    → ((s' : Text) → s === s' ≡ false → Rows.admins s' rows' ≡ Rows.admins s' rows)
    → (s' : Text) → 1 ≤ Rows.admins s' rows
    → 1 ≤ Rows.admins s' rows'
by_scope s rows rows' here elsewhere s' h = elim (Bool-cases (s === s')) [
  | inl same ↦
      subst (λ x. 1 ≤ Rows.admins x rows → 1 ≤ Rows.admins x rows') (eq_of_=== s s' same) here h
  | inr other ↦ omega (arith, elsewhere s' other)
]

set_role_here :
    (s u : Text) (existing r : Role) (rows : List Member)
    → Rows.IsKeyed rows
    → role_of s u rows ≡ some existing
    → (is_demotion existing r ≡ true → 2 ≤ Rows.admins s rows)
    → 1 ≤ Rows.admins s rows
    → 1 ≤ Rows.admins s (set_role s u r rows)
set_role_here s u existing admin rows k e two h = omega (arith, Rows.admins-set_admin s u rows)
set_role_here s u existing viewer rows k e two h = omega (
  arith,
  Rows.admins-set_role s u viewer rows,
  others_admin s u rows k (λ e'. two (cc (e, e'))) h,
)
set_role_here s u existing editor rows k e two h = omega (
  arith,
  Rows.admins-set_role s u editor rows,
  others_admin s u rows k (λ e'. two (cc (e, e'))) h,
)

pub set_role-KeepsAdmins :
    (s u : Text) (existing r : Role) (rows : List Member)
    → Rows.IsKeyed rows
    → role_of s u rows ≡ some existing
    → (is_demotion existing r ≡ true → 2 ≤ Rows.admins s rows)
    → KeepsAdmins rows (set_role s u r rows)
set_role-KeepsAdmins s u existing r rows k e two = record {
  keyed = Rows.update-IsKeyed s u (λ _. r) rows k;
  admins =
      by_scope s rows (set_role s u r rows) (set_role_here s u existing r rows k e two)
        (λ s' h. Rows.admins-set_role_other s u s' r rows h);
}

pub delete-KeepsAdmins :
    (s u : Text) (rows : List Member)
    → Rows.IsKeyed rows
    → (role_of s u rows ≡ some admin → 2 ≤ Rows.admins s rows)
    → KeepsAdmins rows (delete_where (is_row s u) rows)
delete-KeepsAdmins s u rows k two = record {
  keyed = Rows.delete-IsKeyed s u rows k;
  admins =
      by_scope s rows (delete_where (is_row s u) rows) (others_admin s u rows k two)
        (λ s' h. Rows.admins-delete_other s u s' rows h);
}
