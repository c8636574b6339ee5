-- ===== src/Drive/Laws/Confined.antt =====
-- What an operation leaves alone, however it ends.
use agent_fs.Prelude.{ℕ, ◌≡◌, refl, sym, subst, false, Option, some, Text, ◌===◌, ◌++◌, find?}
use agent_fs.Errors.{Result, ok, err, AgentError, and_then_elim, ◌>>=◌}
use agent_fs.Paths.{normalize_path}
use agent_fs.Storage.{Bytes, Platform, StorageAdapter, IsStorage, content}
use agent_fs.Files.{Operation, OpContext}
use agent_fs.Files.Versions.{Drawn}
use agent_fs.Files.Write.{Checked, check_write}
use agent_fs.Files.Edit.{edit_text}
use agent_fs.Drive.{
  Drive, key_of, checked, with_store, expect, read_text, store_version, write_params, after_check,
  write, append, edit, rm, cp, revert, copy_and_record, deletion, is_version, handle_of_row,
  assert_distinct, assert_capability,
}
use agent_fs.Drive.Laws.{IsDriveContext, Grows, Grows-refl, IsRecorded}
use agent_fs.Drive.Laws.Stores.{
  store_version-elim, record_version-ok, is_put, stored_recorded, made_recorded,
}
use agent_fs.Drive.Laws.Deletes.{
  deleted, unlisted, deleted-IsRecorded, unlisted-IsRecorded, is_deletion,
}
use agent_fs.Drive.Laws.Copies as Copy

module _ (A : StorageAdapter) (P : Platform) (L : IsStorage A P.sha256) (ctx : OpContext)
    (own : IsDriveContext A P L ctx) where
  -- The history is kept, and so is what every key reads as but those of two paths.
  pub record IsConfined (d : Drive A) (p q : Text) (out : Drive A × Result ℕ) : Type 0 where
    pub recorded : IsRecorded A P L ctx out.0
    pub grows : Grows d.db.versions out.0.db.versions
    pub elsewhere :
        (j : Text)
        → L.IsKey j
        → key_of ctx p === j ≡ false
        → key_of ctx q === j ≡ false
        → content A out.0.store j ≡ content A d.store j

  pub IsConfined-refl :
      (d : Drive A) (p q : Text) (r : Result ℕ) → IsRecorded A P L ctx d → IsConfined d p q (d, r)
  IsConfined-refl d p q r i = record {
    recorded = i;
    grows = Grows-refl d.db.versions;
    elsewhere = λ j k dp dq. refl;
  }

  module _ (d : Drive A) (i : IsRecorded A P L ctx d) where
    pub stored-IsConfined :
        (path : Text) (operation : Operation) (b : Bytes) (drawn : Drawn)
        → IsConfined d path path (store_version A P d ctx path operation b drawn)
    stored-IsConfined path operation b drawn =
        let put = is_put A P L ctx own d path operation b drawn i in
        store_version-elim A P L ctx own d path operation b drawn i (IsConfined d path path)
          (λ e. record {
            recorded = stored_recorded A P L ctx own d path operation b drawn i;
            grows = Grows-refl d.db.versions;
            elsewhere = λ j k dp dq. put.other j k dp;
          })
          (λ r e. record {
            recorded = made_recorded A P L ctx own d path operation b drawn i r e;
            grows = (_, refl);
            elsewhere = λ j k dp dq. put.other j k dp;
          })

    pub unlisted-IsConfined :
        (p q : Text) (drawn : Drawn) (n : ℕ)
        → IsConfined d p q (unlisted A P L ctx own d q drawn i, ok n)
    unlisted-IsConfined p q drawn n = record {
      recorded = unlisted-IsRecorded A P L ctx own d q drawn i;
      grows = (_, refl);
      elsewhere = λ j k dp dq. (is_deletion A P L ctx own d q drawn i).other j k dq;
    }

    pub deleted-IsConfined :
        (p q : Text) (drawn : Drawn) (e : AgentError)
        → IsConfined d p q (deleted A P L ctx own d q drawn i, err e)
    deleted-IsConfined p q drawn e = record {
      recorded = deleted-IsRecorded A P L ctx own d q drawn i;
      grows = Grows-refl d.db.versions;
      elsewhere = λ j k dp dq. (is_deletion A P L ctx own d q drawn i).other j k dq;
    }

    pub copied-IsConfined :
        (from to : Text) (drawn : Drawn)
        → IsConfined d from to (copy_and_record A P d ctx from to drawn)
    copied-IsConfined from to drawn =
        Copy.copy_and_record-elim A P L ctx own d from to drawn i (IsConfined d from to)
          (λ e. IsConfined-refl d from to (err e) i)
          (λ b e source put r. record {
            recorded = r;
            grows = Grows-refl d.db.versions;
            elsewhere = λ j k dp dq. put.other j k dq;
          })
          (λ b d' n source s. record {
            recorded = s.recorded;
            grows = s.grows;
            elsewhere = λ j k dp dq. s.elsewhere j k dq;
          })

    pub write-IsConfined :
        (m : ℕ) (path : Text) (bytes : Bytes) (expected : Option ℕ) (drawn : Drawn)
        → IsConfined d path path (write A P d ctx m path bytes expected drawn)
    unfolding write
    write-IsConfined m path bytes expected drawn =
        and_then_elim (IsConfined d path path)
          (checked A P d (check_write d.db ctx m (write_params A P path bytes expected))) _
          (λ e h. IsConfined-refl d path path (err e) i) (λ k h. by_check k)
      where
        by_check : (k : Checked) → IsConfined d path path (after_check A P d ctx path bytes drawn k)
        by_check (Checked.deduped n) = IsConfined-refl d path path (ok n) i
        by_check Checked.upload = stored-IsConfined path Operation.write bytes drawn

    pub append-IsConfined :
        (path added : Text) (expected : Option ℕ) (drawn : Drawn)
        → IsConfined d path path (append A P d ctx path added expected drawn)
    unfolding append
    append-IsConfined path added expected drawn =
        and_then_elim (IsConfined d path path) (expect A P d ctx path expected) _
          (λ e h. IsConfined-refl d path path (err e) i)
          (λ v h.
            and_then_elim (IsConfined d path path) (checked A P d (read_text A P d ctx path)) _
              (λ e h. IsConfined-refl d path path (err e) i)
              (λ t r. stored-IsConfined path Operation.append (P.encode (t ++ added)) drawn))

    pub edit-IsConfined :
        (path old new : Text) (expected : Option ℕ) (drawn : Drawn)
        → IsConfined d path path (edit A P d ctx path old new expected drawn)
    unfolding edit
    edit-IsConfined path old new expected drawn =
        and_then_elim (IsConfined d path path) (expect A P d ctx path expected) _
          (λ e h. IsConfined-refl d path path (err e) i)
          (λ v h.
            and_then_elim (IsConfined d path path)
              (checked A P d (read_text A P d ctx path >>= λ current. edit_text current old new)) _
              (λ e h. IsConfined-refl d path path (err e) i)
              (λ t r. stored-IsConfined path Operation.edit (P.encode t) drawn))

    pub rm-IsConfined :
        (path : Text) (expected : Option ℕ) (drawn : Drawn)
        → IsConfined d path path (rm A P d ctx path expected drawn)
    unfolding rm
    rm-IsConfined path expected drawn =
        and_then_elim (IsConfined d path path) (expect A P d ctx path expected) _
          (λ e h. IsConfined-refl d path path (err e) i)
          (λ v h.
            and_then_elim (IsConfined d path path)
              (with_store A P d (A.delete_object d.store (key_of ctx path))) _
              (λ e h. deleted-IsConfined path path drawn e)
              (λ u gone.
                subst (IsConfined d path path)
                  (sym (
                    record_version-ok A P ctx (deleted A P L ctx own d path drawn i)
                      (deletion A P path) drawn))
                  (unlisted-IsConfined path path drawn _)))

    pub cp-IsConfined :
        (from to : Text) (expected : Option ℕ) (drawn : Drawn)
        → IsConfined d from to (cp A P d ctx from to expected drawn)
    unfolding cp
    cp-IsConfined from to expected drawn =
        and_then_elim (IsConfined d from to) (checked A P d (assert_distinct A P from to)) _
          (λ e h. IsConfined-refl d from to (err e) i)
          (λ u g.
            and_then_elim (IsConfined d from to) (expect A P d ctx to expected) _
              (λ e h. IsConfined-refl d from to (err e) i) (λ v h. copied-IsConfined from to drawn))

    pub revert-IsConfined :
        (path : Text) (version : ℕ) (expected : Option ℕ) (drawn : Drawn)
        → IsConfined d path path (revert A P d ctx path version expected drawn)
    unfolding revert
    revert-IsConfined path version expected drawn =
        let Q = IsConfined d path path in
        let row = find? (is_version (normalize_path path) ctx.drive_id version) d.db.versions in
        let unchanged = λ (e : AgentError). IsConfined-refl d path path (err e) i in
        and_then_elim Q (checked A P d (assert_capability A P)) _ (λ e h. unchanged e)
          (λ u g.
            and_then_elim Q (expect A P d ctx path expected) _ (λ e h. unchanged e)
              (λ v h.
                and_then_elim Q (checked A P d (handle_of_row A P row)) _ (λ e h. unchanged e)
                  (λ handle r.
                    and_then_elim Q
                      (checked A P d (A.get_object d.store (key_of ctx path) (some handle))) _
                      (λ e h. unchanged e)
                      (λ old got. stored-IsConfined path Operation.revert old.body drawn))))
