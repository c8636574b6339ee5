-- ===== src/Drive/Reads/Missing.antt =====
-- Operations on a file that was removed.
use agent_fs.Prelude.{
  ℕ, ◌≡◌, refl, sym, ap, subst, ◌⊎◌, inl, inr, false, Option, none, Text, ◌===◌, arith,
}
use agent_fs.Errors.{
  ok, err, AgentError, not_found, validation, no_such_key, and_then_elim, get_status_code,
}
use agent_fs.Paths.{normalize_path}
use agent_fs.Storage.{Platform, StorageAdapter, IsStorage, body_of}
use agent_fs.Files.{OpContext}
use agent_fs.Files.Versions.{Drawn, assert_expected_version}
use agent_fs.Drive.{Drive, key_of, with_store, expect, deletion, append, edit, rm, cp, mv}
use agent_fs.Drive.Reads.{cat, tail}
use agent_fs.Drive.Laws.{IsDriveContext, IsRecorded}
use agent_fs.Drive.Laws.Stores.{OnOk, record_version-ok}
use agent_fs.Drive.Laws.Deletes.{deleted, is_deletion}
use agent_fs.Drive.Laws.Copies.{copy_unread}
use agent_fs.Drive.Laws.Confined.{rm-IsConfined}

module _ (A : StorageAdapter) (P : Platform) (ctx : OpContext) (d : Drive A) (path : Text)
    (missing : A.get_object d.store (key_of ctx path) none ≡ err no_such_key) where
  cat_missing : (offset limit : Option ℕ) → cat A P d ctx path offset limit ≡ err not_found
  unfolding cat
  cat_missing offset limit = rw missing refl

  tail_missing : (lines : Option ℕ) → tail A P d ctx path lines ≡ err not_found
  unfolding tail
  tail_missing lines = rw missing refl

  append_missing :
      (added : Text) (drawn : Drawn) → append A P d ctx path added none drawn ≡ (d, err not_found)
  unfolding append assert_expected_version
  append_missing added drawn = rw missing refl

  edit_missing :
      (old new : Text) (drawn : Drawn) → edit A P d ctx path old new none drawn ≡ (d, err not_found)
  unfolding edit assert_expected_version
  edit_missing old new drawn = rw missing refl

  -- The error of a copy that has no source.
  abbrev pub IsUntranslated : AgentError → Type 0
  IsUntranslated e = (e ≡ no_such_key) ⊎ (e ≡ validation)

  module _ (L : IsStorage A P.sha256) (own : IsDriveContext A P L ctx) (i : IsRecorded A P L ctx d)
      (to : Text) (drawn : Drawn) (differ : normalize_path path === normalize_path to ≡ false) where
    cp_missing :
        (e : AgentError) × (cp A P d ctx path to none drawn ≡ (d, err e)) × IsUntranslated e
    unfolding cp assert_expected_version
    cp_missing =
        let (e, same, kind) = copy_unread A P L ctx own d path to drawn i (ap body_of missing) in
        (e, rw differ same, kind missing)

    mv_missing :
        (drawn' : Drawn)
        → (e : AgentError) × (mv A P d ctx path to none drawn drawn' ≡ (d, err e))
          × IsUntranslated e
    unfolding mv assert_expected_version
    mv_missing drawn' =
        let (e, same, kind) = copy_unread A P L ctx own d path to drawn i (ap body_of missing) in
        (e, rw differ (rw same refl), kind missing)

module _ (A : StorageAdapter) (P : Platform) (L : IsStorage A P.sha256) (ctx : OpContext)
    (own : IsDriveContext A P L ctx) (d : Drive A) (i : IsRecorded A P L ctx d) where
  rm_gone :
      (path : Text) (expected : Option ℕ) (drawn : Drawn)
      → OnOk A P L ctx own
          (λ d'. A.get_object d'.store (key_of ctx path) none ≡ err no_such_key)
          (rm A P d ctx path expected drawn)
  unfolding rm
  rm_gone path expected drawn =
      let Q =
        OnOk A P L ctx own
          (λ (d' : Drive A). A.get_object d'.store (key_of ctx path) none ≡ err no_such_key) in
      and_then_elim Q (expect A P d ctx path expected) _ (λ e h n h'. ground arith)
        (λ v h.
          and_then_elim Q (with_store A P d (A.delete_object d.store (key_of ctx path))) _
            (λ e h n h'. ground arith)
            (λ u gone.
              subst Q
                (sym (
                  record_version-ok A P ctx (deleted A P L ctx own d path drawn i)
                    (deletion A P path) drawn))
                (λ n h'. (is_deletion A P L ctx own d path drawn i).gone gone)))

  -- After an rm that succeeded, cat, tail, and append and edit without an expected version refuse
  -- the path with a not-found error, whose status is 404, and change nothing. cp and mv from the
  -- path to another one change nothing either, but their error is the backend's, whose status is
  -- 500, or a validation error for the destination.
  pub removed_refused :
      (path to : Text) (expected : Option ℕ) (drawn drawn' drawn'' : Drawn) (n : ℕ)
      (offset limit : Option ℕ) (added old new : Text)
      → (rm A P d ctx path expected drawn).1 ≡ ok n
      → normalize_path path === normalize_path to ≡ false
      → let d' = (rm A P d ctx path expected drawn).0 in
        (cat A P d' ctx path offset limit ≡ err not_found)
        × (tail A P d' ctx path limit ≡ err not_found)
        × (append A P d' ctx path added none drawn' ≡ (d', err not_found))
        × (edit A P d' ctx path old new none drawn' ≡ (d', err not_found))
        × (get_status_code not_found ≡ 404)
        × ((e : AgentError) × (cp A P d' ctx path to none drawn' ≡ (d', err e))
            × ((get_status_code e ≡ 500) ⊎ (e ≡ validation)))
        × ((e : AgentError) × (mv A P d' ctx path to none drawn' drawn'' ≡ (d', err e))
            × ((get_status_code e ≡ 500) ⊎ (e ≡ validation)))
  unfolding get_status_code
  removed_refused path to expected drawn drawn' drawn'' n offset limit added old new h differ =
      let d' = (rm A P d ctx path expected drawn).0 in
      let missing = rm_gone path expected drawn n h in
      let i' = (rm-IsConfined A P L ctx own d i path expected drawn).recorded in
      let (e, cp_same, cp_kind) = cp_missing A P ctx d' path missing L own i' to drawn' differ in
      let (e', mv_same, mv_kind) =
        mv_missing A P ctx d' path missing L own i' to drawn' differ drawn'' in
      (
        cat_missing A P ctx d' path missing offset limit,
        tail_missing A P ctx d' path missing limit,
        append_missing A P ctx d' path missing added drawn',
        edit_missing A P ctx d' path missing old new drawn',
        refl,
        (e, cp_same, status e cp_kind),
        (e', mv_same, status e' mv_kind),
      )
    where
      status :
          (e : AgentError)
          → (e ≡ no_such_key) ⊎ (e ≡ validation)
          → (get_status_code e ≡ 500) ⊎ (e ≡ validation)
      status e (inl k) = inl (ap get_status_code k)
      status e (inr v) = inr v
