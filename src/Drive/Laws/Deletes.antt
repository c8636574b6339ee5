-- ===== src/Drive/Laws/Deletes.antt =====
-- A deletion of the store, recorded: the end of rm and of mv.
use agent_fs.Prelude.{◌≡◌, refl, ap, none, Text, arith}
use agent_fs.Errors.{Result, ok}
use agent_fs.Storage.{Platform, StorageAdapter, IsStorage, IsDeletion, body_of}
use agent_fs.Files.{OpContext}
use agent_fs.Files.Versions.{Drawn}
use agent_fs.Files.Write.Laws.{after}
use agent_fs.Drive.{Drive, key_of, deletion}
use agent_fs.Drive.Laws.{
  IsDriveContext, IsRecorded, view_of_set, store-IsRecorded, after-IsRecorded, after-IsCurrent,
}
use agent_fs.Drive.Laws.Stores.{IsGiven}

module _ (A : StorageAdapter) (P : Platform) (L : IsStorage A P.sha256) (ctx : OpContext)
    (own : IsDriveContext A P L ctx) (d : Drive A) (path : Text) (drawn : Drawn)
    (i : IsRecorded A P L ctx d) where
  abbrev pub out : A.State × Result (Unit {0})
  out = A.delete_object d.store (key_of ctx path)

  pub is_deletion : IsDeletion A P.sha256 L.IsKey d.store (key_of ctx path) out
  is_deletion = L.delete d.store (key_of ctx path) (own.keys path) i.valid

  -- the drive after the store's call, and after the record of it
  abbrev pub deleted : Drive A
  deleted = record { db = d.db; store = out.0 }

  abbrev pub unlisted : Drive A
  unlisted = record { db = after d.db ctx (deletion A P path) drawn; store = out.0 }

  pub deleted-IsRecorded : IsRecorded A P L ctx deleted
  deleted-IsRecorded =
      store-IsRecorded A P L ctx d out.0
        (L.delete-valid d.store (key_of ctx path) (own.keys path) i.valid) is_deletion.keeps i

  pub unlisted-IsRecorded : IsRecorded A P L ctx unlisted
  unlisted-IsRecorded =
      after-IsRecorded A P L ctx deleted (deletion A P path) drawn (λ nz x hx. ground (arith, hx))
        deleted-IsRecorded

  pub unlisted-IsGiven : out.1 ≡ ok tt → IsGiven A P L ctx own d path none unlisted
  unlisted-IsGiven e = record {
    same =
        view_of_set A P L ctx own d unlisted path none (ap body_of (is_deletion.gone e))
          is_deletion.other;
    elsewhere = is_deletion.other;
    grows = (_, refl);
    recorded = unlisted-IsRecorded;
    current =
        after-IsCurrent A P L ctx own d unlisted path (deletion A P path) drawn refl refl
          is_deletion.other (λ x hx. ground (arith, hx));
  }
