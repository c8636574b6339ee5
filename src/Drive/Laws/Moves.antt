-- ===== src/Drive/Laws/Moves.antt =====
-- rm, cp, mv and revert against what they mean.
use agent_fs.Prelude.{
  ℕ, ◌≡◌, refl, sym, subst, ◌∙◌, inl, inr, Option, none, some, Text, ◌===◌, arith, find?,
  Bool-cases,
}
use agent_fs.Errors.{ok, and_then, and_then_elim}
use agent_fs.Paths.{normalize_path}
use agent_fs.Storage.{Bytes, Platform, StorageAdapter, IsStorage}
use agent_fs.Files.{Operation, OpContext}
use agent_fs.Files.Versions.{Drawn}
use agent_fs.Drive.{
  Drive, key_of, checked, with_store, expect, record_version, rm, cp, mv, revert, copy_and_record,
  deletion, is_version, handle_of_row, assert_distinct, assert_capability,
}
use agent_fs.Drive.Requests.{
  rm_file, cp_file, mv_file, revert_file, Contents, set_content, IsContents,
}
use agent_fs.Drive.Laws.{IsDriveContext, IsRecorded, IsCurrent}
use agent_fs.Drive.Laws.Stores.{IsGiven, record_version-ok}
use agent_fs.Drive.Laws.Deletes.{unlisted-IsGiven, deleted}
use agent_fs.Drive.Laws.Copies.{copy_and_record-elim}
use agent_fs.Drive.Laws.Handles.{read_handle}
use agent_fs.Drive.Laws.Texts.{contents, Meets, stored_meets}

set_content-same :
    (path : Text) (v : Option Bytes) (c c' : Contents)
    → IsContents c c'
    → IsContents (set_content path v c) (set_content path v c')
set_content-same path v c c' same q = elim (Bool-cases (normalize_path path === normalize_path q)) [
  | inl here ↦ rw here refl
  | inr other ↦ rw other (same q)
]

module _ (A : StorageAdapter) (P : Platform) (L : IsStorage A P.sha256) (ctx : OpContext)
    (own : IsDriveContext A P L ctx) (d : Drive A) (i : IsRecorded A P L ctx d)
    (c : IsCurrent A P L ctx d) where
  pub rm_meets :
      (path : Text) (expected : Option ℕ) (drawn : Drawn)
      → Meets A P L ctx own d i (rm_file path expected drawn) (rm A P d ctx path expected drawn)
  unfolding rm
  rm_meets path expected drawn =
      and_then_elim (Meets A P L ctx own d i (rm_file path expected drawn))
        (expect A P d ctx path expected) _ (λ e h n h'. ground arith)
        (λ v h.
          and_then_elim (Meets A P L ctx own d i (rm_file path expected drawn))
            (with_store A P d (A.delete_object d.store (key_of ctx path))) _
            (λ e h n h'. ground arith)
            (λ u gone.
              subst (Meets A P L ctx own d i (rm_file path expected drawn))
                (sym (
                  record_version-ok A P ctx (deleted A P L ctx own d path drawn i)
                    (deletion A P path) drawn))
                (λ n h'.
                  let s = unlisted-IsGiven A P L ctx own d path drawn i gone in
                  (s.same, s.recorded, s.current c))))

  -- A copy that succeeds: the source could be read, and the destination has its bytes.
  copied :
      (from to : Text) (drawn : Drawn) (n : ℕ)
      → (copy_and_record A P d ctx from to drawn).1 ≡ ok n
      → (b : Bytes) × (contents A P L ctx own d i d from ≡ some b)
        × IsGiven A P L ctx own d to (some b) (copy_and_record A P d ctx from to drawn).0
  copied from to drawn n h =
      copy_and_record-elim A P L ctx own d from to drawn i
        (λ out.
          out.1 ≡ ok n
          → (b : Bytes) × (contents A P L ctx own d i d from ≡ some b)
            × IsGiven A P L ctx own d to (some b) out.0)
        (λ e h. ground arith) (λ b e source put r h. ground arith)
        (λ b d' m source set h. (b, source, set)) h

  pub cp_meets :
      (from to : Text) (expected : Option ℕ) (drawn : Drawn)
      → Meets A P L ctx own d i
          (cp_file from to expected drawn)
          (cp A P d ctx from to expected drawn)
  unfolding cp
  cp_meets from to expected drawn =
      and_then_elim (Meets A P L ctx own d i (cp_file from to expected drawn))
        (checked A P d (assert_distinct A P from to)) _ (λ e h n h'. ground arith)
        (λ u g.
          and_then_elim (Meets A P L ctx own d i (cp_file from to expected drawn))
            (expect A P d ctx to expected) _ (λ e h n h'. ground arith)
            (λ v h n h'.
              let (b, source, s) = copied from to drawn n h' in
              ((b, source, s.same), s.recorded, s.current c)))

  -- The second half of a move, from the drive that the copy left.
  moved :
      (from to : Text) (expected : Option ℕ) (drawn drawn' : Drawn) (version : ℕ)
      → (copy_and_record A P d ctx from to drawn).1 ≡ ok version
      → Meets A P L ctx own d i (mv_file from to expected drawn drawn') (
          and_then
            (with_store A P
              (copy_and_record A P d ctx from to drawn).0
              (A.delete_object (copy_and_record A P d ctx from to drawn).0.store (key_of ctx from)))
            λ d3 u'.
              and_then
                (record_version A P d3 ctx (deletion A P from) drawn')
                λ d4 v'. (d4, ok version))
  moved from to expected drawn drawn' version h =
      let (b, source, s) = copied from to drawn version h in
      let d2 = (copy_and_record A P d ctx from to drawn).0 in
      and_then_elim (Meets A P L ctx own d i (mv_file from to expected drawn drawn'))
        (with_store A P d2 (A.delete_object d2.store (key_of ctx from))) _
        (λ e h n h'. ground arith)
        (λ u gone.
          subst
            (λ o.
              Meets A P L ctx own d i (mv_file from to expected drawn drawn')
                (and_then o λ d4 v'. (d4, ok version)))
            (sym (
              record_version-ok A P ctx (deleted A P L ctx own d2 from drawn' s.recorded)
                (deletion A P from) drawn'))
            (λ n h'.
              let s' = unlisted-IsGiven A P L ctx own d2 from drawn' s.recorded gone in
              (
                (
                  b,
                  source,
                  λ q.
                      s'.same q
                      ∙ set_content-same from none
                          (set_content to (some b) (contents A P L ctx own d i d))
                          (contents A P L ctx own d i d2) s.same q,
                ),
                s'.recorded,
                s'.current (s.current c),
              )))

  pub mv_meets :
      (from to : Text) (expected : Option ℕ) (drawn drawn' : Drawn)
      → Meets A P L ctx own d i
          (mv_file from to expected drawn drawn')
          (mv A P d ctx from to expected drawn drawn')
  unfolding mv
  mv_meets from to expected drawn drawn' =
      and_then_elim (Meets A P L ctx own d i (mv_file from to expected drawn drawn'))
        (checked A P d (assert_distinct A P from to)) _ (λ e h n h'. ground arith)
        (λ u g.
          and_then_elim (Meets A P L ctx own d i (mv_file from to expected drawn drawn'))
            (expect A P d ctx from expected) _ (λ e h n h'. ground arith)
            (λ v h.
              and_then_elim (Meets A P L ctx own d i (mv_file from to expected drawn drawn'))
                (copy_and_record A P d ctx from to drawn) _ (λ e h n h'. ground arith)
                (λ version h. moved from to expected drawn drawn' version h)))

  pub revert_meets :
      (path : Text) (version : ℕ) (expected : Option ℕ) (drawn : Drawn)
      → Meets A P L ctx own d i
          (revert_file path version expected drawn)
          (revert A P d ctx path version expected drawn)
  unfolding revert
  revert_meets path version expected drawn =
      let Q = Meets A P L ctx own d i (revert_file path version expected drawn) in
      let row = find? (is_version (normalize_path path) ctx.drive_id version) d.db.versions in
      and_then_elim Q (checked A P d (assert_capability A P)) _ (λ e h n h'. ground arith)
        (λ u g.
          and_then_elim Q (expect A P d ctx path expected) _ (λ e h n h'. ground arith)
            (λ v h.
              and_then_elim Q (checked A P d (handle_of_row A P row)) _ (λ e h n h'. ground arith)
                (λ handle r.
                  and_then_elim Q
                    (checked A P d (A.get_object d.store (key_of ctx path) (some handle))) _
                    (λ e h n h'. ground arith)
                    (λ old got.
                      stored_meets A P L ctx own d i c (revert_file path version expected drawn)
                        path Operation.revert old.body drawn
                        (λ d' same. (
                          old.body,
                          read_handle A P L ctx own d i path handle version old r got,
                          same,
                        ))))))
