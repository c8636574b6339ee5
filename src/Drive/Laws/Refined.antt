-- ===== src/Drive/Laws/Refined.antt =====
-- The file operations together implement what Drive.Requests says of them.
use agent_fs.Prelude.{ℕ, ◌≡◌}
use agent_fs.Errors.{ok}
use agent_fs.Storage.{Platform, StorageAdapter, IsStorage}
use agent_fs.Files.{OpContext}
use agent_fs.Drive.{Drive}
use agent_fs.Drive.Requests.{
  Request, write_file, append_file, edit_file, rm_file, cp_file, mv_file, revert_file, handle,
  Specified,
}
use agent_fs.Drive.Laws.{IsDriveContext, IsRecorded, IsCurrent, view}
use agent_fs.Drive.Laws.Texts.{Meets, write_meets, append_meets, edit_meets}
use agent_fs.Drive.Laws.Moves.{rm_meets, cp_meets, mv_meets, revert_meets}

module _ (A : StorageAdapter) (P : Platform) (L : IsStorage A P.sha256) (ctx : OpContext)
    (own : IsDriveContext A P L ctx) (d : Drive A) (i : IsRecorded A P L ctx d)
    (c : IsCurrent A P L ctx d) where
  meets : (request : Request) → Meets A P L ctx own d i request (handle A P d ctx request)
  unfolding handle
  meets (write_file m path bytes expected drawn) =
      write_meets A P L ctx own d i c m path bytes expected drawn
  meets (append_file path added expected drawn) =
      append_meets A P L ctx own d i c path added expected drawn
  meets (edit_file path old new expected drawn) =
      edit_meets A P L ctx own d i c path old new expected drawn
  meets (rm_file path expected drawn) = rm_meets A P L ctx own d i c path expected drawn
  meets (cp_file from to expected drawn) = cp_meets A P L ctx own d i c from to expected drawn
  meets (mv_file from to expected drawn drawn') =
      mv_meets A P L ctx own d i c from to expected drawn drawn'
  meets (revert_file path version expected drawn) =
      revert_meets A P L ctx own d i c path version expected drawn

  -- Over any backend that keeps the contract, on a drive whose recorded handles read their versions
  -- and whose contents have the hashes of their heads: a write, append, edit, rm, cp, mv or revert
  -- that succeeds changes the contents of the drive's paths exactly as its meaning says, every
  -- other path left alone, and both invariants hold again. The bytes that a revert brings back have
  -- the hash that the row of the version keeps, and a write leaves bytes of the hash of the bytes
  -- that were given.
  pub handle_refines :
      (request : Request) (n : ℕ)
      → (handle A P d ctx request).1 ≡ ok n
      → Specified P d.db ctx request
          (view A P L ctx d)
          (view A P L ctx (handle A P d ctx request).0)
        × IsRecorded A P L ctx (handle A P d ctx request).0
        × IsCurrent A P L ctx (handle A P d ctx request).0
  handle_refines request n h = meets request n h
