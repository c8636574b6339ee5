-- ===== src/Drive/Laws/Safe.antt =====
-- A move, and every operation, however it ends.
use agent_fs.Prelude.{
  Bool-cases, eq_of_===, ===_iff, ℕ, ◌≡◌, sym, subst, ◌∙◌, ◌⊎◌, inl, inr, false, Option, some, Text,
  ◌===◌, arith, ===_refl, differ_sym,
}
use agent_fs.Errors.{Result, ok, err, AgentError, and_then, and_then_elim}
use agent_fs.Paths.{normalize_path}
use agent_fs.Paths.Keys.{get_s3_key_inj}
use agent_fs.Storage.{Bytes, Platform, StorageAdapter, IsStorage}
use agent_fs.Files.{OpContext}
use agent_fs.Files.Versions.{Drawn}
use agent_fs.Drive.{
  Drive, key_of, checked, with_store, expect, record_version, mv, copy_and_record, deletion,
  assert_distinct,
}
use agent_fs.Drive.Requests.{
  Request, write_file, append_file, edit_file, rm_file, cp_file, mv_file, revert_file, handle,
}
use agent_fs.Drive.Laws.{Grows-trans, IsDriveContext, IsRecorded, view, key_of-differ}
use agent_fs.Drive.Laws.Stores.{record_version-ok}
use agent_fs.Drive.Laws.Deletes.{deleted, unlisted, is_deletion}
use agent_fs.Drive.Laws.Copies.{copy_and_record-elim}
use agent_fs.Drive.Laws.Confined.{
  IsConfined, IsConfined-refl, unlisted-IsConfined, deleted-IsConfined, copied-IsConfined,
  write-IsConfined, append-IsConfined, edit-IsConfined, rm-IsConfined, cp-IsConfined,
  revert-IsConfined,
}

assert_distinct_inv :
    (A : StorageAdapter) (P : Platform) (from to : Text)
    → assert_distinct A P from to ≡ ok tt
    → normalize_path from === normalize_path to ≡ false
assert_distinct_inv A P from to h = ground arith

module _ (A : StorageAdapter) (P : Platform) (L : IsStorage A P.sha256) (ctx : OpContext)
    (own : IsDriveContext A P L ctx) (d : Drive A) (i : IsRecorded A P L ctx d) where
  -- the deletion of the source, from the drive that the copy left
  abbrev move_end : Drive A → Text → Drawn → ℕ → Drive A × Result ℕ
  move_end d2 from drawn' version =
      and_then (with_store A P d2 (A.delete_object d2.store (key_of ctx from))) λ d3 u'.
        and_then (record_version A P d3 ctx (deletion A P from) drawn') λ d4 v'. (d4, ok version)

  move_end-elim :
      (Q : Drive A × Result ℕ → Type 0) (d2 : Drive A) (i2 : IsRecorded A P L ctx d2) (from : Text)
      (drawn' : Drawn) (version : ℕ)
      → ((e : AgentError) → Q (deleted A P L ctx own d2 from drawn' i2, err e))
      → Q (unlisted A P L ctx own d2 from drawn' i2, ok version)
      → Q (move_end d2 from drawn' version)
  move_end-elim Q d2 i2 from drawn' version failed went =
      and_then_elim Q (with_store A P d2 (A.delete_object d2.store (key_of ctx from))) _
        (λ e h. failed e)
        (λ u gone.
          subst (λ o. Q (and_then o λ d4 v'. (d4, ok version)))
            (sym (
              record_version-ok A P ctx (deleted A P L ctx own d2 from drawn' i2)
                (deletion A P from) drawn'))
            went)

  IsConfined-after :
      (d2 : Drive A) (p q : Text) (r : Result ℕ) (out : Drive A × Result ℕ)
      → IsConfined A P L ctx own d p q (d2, r)
      → IsConfined A P L ctx own d2 q p out
      → IsConfined A P L ctx own d p q out
  IsConfined-after d2 p q r out c c' = record {
    recorded = c'.recorded;
    grows = Grows-trans d.db.versions d2.db.versions out.0.db.versions c.grows c'.grows;
    elsewhere = λ j k dp dq. c'.elsewhere j k dq dp ∙ c.elsewhere j k dp dq;
  }

  -- A move by its ends: refused, a copy that failed, or a copy with the deletion after it.
  mv-elim :
      (Q : Drive A × Result ℕ → Type 0) (from to : Text) (expected : Option ℕ)
      (drawn drawn' : Drawn)
      → ((e : AgentError) → Q (d, err e))
      → (normalize_path from === normalize_path to ≡ false
          → Q (
              and_then
                (copy_and_record A P d ctx from to drawn)
                λ d2 version. move_end d2 from drawn' version))
      → Q (mv A P d ctx from to expected drawn drawn')
  unfolding mv
  mv-elim Q from to expected drawn drawn' refused went =
      and_then_elim Q (checked A P d (assert_distinct A P from to)) _ (λ e h. refused e)
        (λ u g.
          and_then_elim Q (expect A P d ctx from expected) _ (λ e h. refused e)
            (λ v h. went (assert_distinct_inv A P from to g)))

  mv-IsConfined :
      (from to : Text) (expected : Option ℕ) (drawn drawn' : Drawn)
      → IsConfined A P L ctx own d from to (mv A P d ctx from to expected drawn drawn')
  mv-IsConfined from to expected drawn drawn' =
      let Q = IsConfined A P L ctx own d from to in
      let copied = copied-IsConfined A P L ctx own d i from to drawn in
      let d2 = (copy_and_record A P d ctx from to drawn).0 in
      mv-elim Q from to expected drawn drawn'
        (λ e. IsConfined-refl A P L ctx own d from to (err e) i)
        (λ differ.
          and_then_elim Q (copy_and_record A P d ctx from to drawn) _
            (λ e h. record {
              recorded = copied.recorded;
              grows = copied.grows;
              elsewhere = copied.elsewhere;
            })
            (λ version h.
              IsConfined-after d2 from to (copy_and_record A P d ctx from to drawn).1 _ copied (
                move_end-elim (IsConfined A P L ctx own d2 to from) d2 copied.recorded from drawn'
                  version
                  (λ e. deleted-IsConfined A P L ctx own d2 copied.recorded to from drawn' e)
                  (unlisted-IsConfined A P L ctx own d2 copied.recorded to from drawn' version))))

  abbrev HasBytes : Text → Text → Bytes → Drive A × Result ℕ → Type 0
  HasBytes from to b out = (view A P L ctx out.0 from ≡ some b) ⊎ (view A P L ctx out.0 to ≡ some b)

  -- On a backend that keeps the contract, under which distinct keys are distinct objects: whatever
  -- fails on the way, a move does not lose the bytes of a file that could be read. After it, the
  -- source or the destination reads as those bytes.
  pub mv_keeps_bytes :
      (from to : Text) (expected : Option ℕ) (drawn drawn' : Drawn) (b : Bytes)
      → view A P L ctx d from ≡ some b
      → (view A P L ctx (mv A P d ctx from to expected drawn drawn').0 from ≡ some b)
        ⊎ (view A P L ctx (mv A P d ctx from to expected drawn drawn').0 to ≡ some b)
  mv_keeps_bytes from to expected drawn drawn' b h =
      mv-elim (HasBytes from to b) from to expected drawn drawn' (λ e. inl h)
        (λ differ.
          copy_and_record-elim A P L ctx own d from to drawn i
            (λ out. HasBytes from to b (and_then out λ d2 version. move_end d2 from drawn' version))
            (λ e. inl h)
            (λ b' e source put r. inl (
              put.other (key_of ctx from) (own.keys from) (
                key_of-differ A P L ctx own to from
                  (differ_sym (normalize_path from) (normalize_path to) differ))
              ∙ h))
            (λ b' d2 version source s.
              let here : view A P L ctx d2 to ≡ some b =
                s.same to ∙ (rw (===_refl (normalize_path to)) (sym source ∙ h)) in
              let after =
                (is_deletion A P L ctx own d2 from drawn' s.recorded).other (key_of ctx to)
                  (own.keys to) (key_of-differ A P L ctx own from to differ)
                ∙ here in
              move_end-elim (HasBytes from to b) d2 s.recorded from drawn' version (λ e. inr after)
                (inr after)))

  -- the paths that a request names
  abbrev pub first_path : Request → Text
  first_path (write_file m path bytes expected drawn) = path
  first_path (append_file path added expected drawn) = path
  first_path (edit_file path old new expected drawn) = path
  first_path (rm_file path expected drawn) = path
  first_path (cp_file from to expected drawn) = from
  first_path (mv_file from to expected drawn drawn') = from
  first_path (revert_file path version expected drawn) = path

  abbrev pub second_path : Request → Text
  second_path (write_file m path bytes expected drawn) = path
  second_path (append_file path added expected drawn) = path
  second_path (edit_file path old new expected drawn) = path
  second_path (rm_file path expected drawn) = path
  second_path (cp_file from to expected drawn) = to
  second_path (mv_file from to expected drawn drawn') = to
  second_path (revert_file path version expected drawn) = path

  request-IsConfined :
      (request : Request)
      → IsConfined A P L ctx own d
          (first_path request)
          (second_path request)
          (handle A P d ctx request)
  unfolding handle
  request-IsConfined (write_file m path bytes expected drawn) =
      write-IsConfined A P L ctx own d i m path bytes expected drawn
  request-IsConfined (append_file path added expected drawn) =
      append-IsConfined A P L ctx own d i path added expected drawn
  request-IsConfined (edit_file path old new expected drawn) =
      edit-IsConfined A P L ctx own d i path old new expected drawn
  request-IsConfined (rm_file path expected drawn) =
      rm-IsConfined A P L ctx own d i path expected drawn
  request-IsConfined (cp_file from to expected drawn) =
      cp-IsConfined A P L ctx own d i from to expected drawn
  request-IsConfined (mv_file from to expected drawn drawn') =
      mv-IsConfined from to expected drawn drawn'
  request-IsConfined (revert_file path version expected drawn) =
      revert-IsConfined A P L ctx own d i path version expected drawn

  key_of-elsewhere :
      (ctx' : OpContext)
      → IsDriveContext A P L ctx'
      → ctx.drive_id === ctx'.drive_id ≡ false
      → (p q : Text) → key_of ctx p === key_of ctx' q ≡ false
  key_of-elsewhere ctx' own' differ p q = elim (Bool-cases (key_of ctx p === key_of ctx' q)) [
    | inr apart ↦ apart
    | inl same ↦
        let (o, drive, path) =
          get_s3_key_inj ctx.org_id ctx'.org_id ctx.drive_id ctx'.drive_id p q own.org own'.org
            own.drive own'.drive (eq_of_=== (key_of ctx p) (key_of ctx' q) same) in
        ground (arith, ===_iff ctx.drive_id ctx'.drive_id, drive)
  ]

  -- On a backend that keeps the contract: however a write, append, edit, rm, cp, mv or revert ends,
  -- also when the backend fails in the middle of it, on a drive whose recorded handles read bytes of
  -- their versions' hashes, every recorded handle still does. Of the keys that the contract counts
  -- as keys of files, all but those of the one or two paths that the request names read as before;
  -- so does every path of any other drive whose keys the contract counts so.
  pub handle-IsConfined :
      (request : Request)
      → IsConfined A P L ctx own d
          (first_path request)
          (second_path request)
          (handle A P d ctx request)
        × ((ctx' : OpContext)
            → IsDriveContext A P L ctx'
            → ctx.drive_id === ctx'.drive_id ≡ false
            → (path : Text)
            → view A P L ctx' (handle A P d ctx request).0 path ≡ view A P L ctx' d path)
  handle-IsConfined request =
      let confined = request-IsConfined request in
      (
        confined,
        λ ctx' own' differ path.
            confined.elsewhere (key_of ctx' path) (own'.keys path)
              (key_of-elsewhere ctx' own' differ (first_path request) path)
              (key_of-elsewhere ctx' own' differ (second_path request) path),
      )
