-- ===== src/Drive/Laws/Texts.antt =====
-- write, append and edit against what they mean.
use agent_fs.Prelude.{
  ℕ, ◌≡◌, refl, sym, ap, subst, inl, inr, Bool, true, Option, none, some, List, [], ◌∷◌, ◌++◌, Text,
  eq_of_===, arith, All, find?, Bool-cases,
}
use agent_fs.Errors.{Result, ok, err, and_then_elim, ◌>>=◌}
use agent_fs.Paths.{normalize_path}
use agent_fs.Storage.{Bytes, Platform, StorageAdapter, GetObjectResult, IsStorage, body_of}
use agent_fs.Files.{FileVersion, FileDb, Operation, OpContext, head_row}
use agent_fs.Files.Versions.{Drawn, assert_expected_version, get_head_content_hash, hash_of}
use agent_fs.Files.Write.{WriteParams, Checked, check_write, is_hash}
use agent_fs.Files.Edit.{edit_text}
use agent_fs.Drive.{
  Drive, key_of, as_not_found, checked, expect, read_text, store_version, write_params, after_check,
  write, append, edit,
}
use agent_fs.Drive.Requests.{
  Request, write_file, append_file, edit_file, Specified, set_content, IsContents,
}
use agent_fs.Drive.Laws.{IsDriveContext, IsRecorded, IsCurrent, view, view_of_set}
use agent_fs.Drive.Laws.Stores.{OnOk, store_version-IsGiven}

pub find?-All {ℓ κ} :
    {A : Type ℓ} (Q : A → Type κ) (p : A → Bool) (rows : List A) (r : A)
    → All Q rows
    → find? p rows ≡ some r
    → Q r
find?-All Q p [] r h e = ground arith
find?-All Q p (x ∷ rows) r (q, h) e = elim (Bool-cases (p x)) [
  | inl here ↦ let same : x ≡ r = ground (arith, (rw here at e)) in subst Q same q
  | inr other ↦ find?-All Q p rows r h (rw other at e)
]

pub bind_inv {ℓ κ} :
    {A : Type ℓ} {B : Type κ} (r : Result A) (f : A → Result B) (b : B)
    → r >>= f ≡ ok b
    → (a : A) × (r ≡ ok a) × (f a ≡ ok b)
bind_inv (ok a) f b h = (a, refl, h)
bind_inv (err e) f b h = ground arith

read_inv :
    (P : Platform) (r : Result GetObjectResult) (t : Text)
    → as_not_found r >>= (λ o. ok (P.decode o.body)) ≡ ok t
    → (b : Bytes) × (body_of r ≡ some b) × (P.decode b ≡ t)
read_inv P (ok o) t h = (o.body, refl, ground arith)
read_inv P (err e) t h = ground arith

is_hash_inv : (h : Text) (o : Option Text) → is_hash h o ≡ true → o ≡ some h
is_hash_inv h none e = ground arith
is_hash_inv h (some x) e = ap some (eq_of_=== x h e)

-- A write that was found to be no change: the head has the hash of the bytes.
deduped_hash :
    (db : FileDb) (ctx : OpContext) (m n : ℕ) (params : WriteParams)
    → check_write db ctx m params ≡ ok (Checked.deduped n)
    → hash_of (head_row (normalize_path params.path) ctx.drive_id db.versions)
      ≡ some params.content_hash
unfolding check_write get_head_content_hash assert_expected_version
deduped_hash db ctx m n params h = ground (
  arith,
  is_hash_inv params.content_hash
      (hash_of (head_row (normalize_path params.path) ctx.drive_id db.versions)),
)

module _ (A : StorageAdapter) (P : Platform) (L : IsStorage A P.sha256) (ctx : OpContext)
    (own : IsDriveContext A P L ctx) (d : Drive A) (i : IsRecorded A P L ctx d) where
  abbrev pub contents : Drive A → Text → Option Bytes
  contents d' = view A P L ctx d'

  -- the meaning of a request, and the two invariants
  abbrev pub IsRefined : Request → Drive A → Type 0
  IsRefined request d' =
      Specified P d.db ctx request (contents d) (contents d')
      × IsRecorded A P L ctx d'
      × IsCurrent A P L ctx d'

  abbrev pub Meets : Request → Drive A × Result ℕ → Type 0
  Meets request out = OnOk A P L ctx own (IsRefined request) out

  module _ (c : IsCurrent A P L ctx d) where
    pub stored_meets :
        (request : Request) (path : Text) (operation : Operation) (b : Bytes) (drawn : Drawn)
        → ((d' : Drive A)
            → IsContents (set_content path (some b) (contents d)) (contents d')
            → Specified P d.db ctx request (contents d) (contents d'))
        → Meets request (store_version A P d ctx path operation b drawn)
    stored_meets request path operation b drawn means n e =
        let s = store_version-IsGiven A P L ctx own d path operation b drawn i n e in
        (means (store_version A P d ctx path operation b drawn).0 s.same, s.recorded, s.current c)

    deduped_meets :
        (m n : ℕ) (path : Text) (bytes : Bytes) (expected : Option ℕ) (drawn : Drawn)
        → check_write d.db ctx m (write_params A P path bytes expected) ≡ ok (Checked.deduped n)
        → Meets (write_file m path bytes expected drawn) (d, ok n)
    deduped_meets m n path bytes expected drawn h k e =
        let (row, head, hash) =
          of_head (head_row (normalize_path path) ctx.drive_id d.db.versions)
            (deduped_hash d.db ctx m n (write_params A P path bytes expected) h) in
        let (b, here, same) = c path row (P.sha256 bytes) head hash in
        ((b, same, view_of_set A P L ctx own d d path (some b) here (λ j kj differ. refl)), i, c)
      where
        of_head :
            (o : Option FileVersion)
            → hash_of o ≡ some (P.sha256 bytes)
            → (row : FileVersion) × (o ≡ some row) × (row.content_hash ≡ some (P.sha256 bytes))
        of_head none h = ground arith
        of_head (some row) h = (row, refl, h)

    pub write_meets :
        (m : ℕ) (path : Text) (bytes : Bytes) (expected : Option ℕ) (drawn : Drawn)
        → Meets
            (write_file m path bytes expected drawn)
            (write A P d ctx m path bytes expected drawn)
    unfolding write
    write_meets m path bytes expected drawn =
        and_then_elim (Meets (write_file m path bytes expected drawn))
          (checked A P d (check_write d.db ctx m (write_params A P path bytes expected))) _
          (λ e h n h'. ground arith) by_check
      where
        by_check :
            (k : Checked)
            → check_write d.db ctx m (write_params A P path bytes expected) ≡ ok k
            → Meets
                (write_file m path bytes expected drawn)
                (after_check A P d ctx path bytes drawn k)
        by_check (Checked.deduped n) h = deduped_meets m n path bytes expected drawn h
        by_check Checked.upload h =
            stored_meets (write_file m path bytes expected drawn) path Operation.write bytes drawn
              (λ d' same. (bytes, refl, same))

    pub append_meets :
        (path added : Text) (expected : Option ℕ) (drawn : Drawn)
        → Meets (append_file path added expected drawn) (append A P d ctx path added expected drawn)
    unfolding append
    append_meets path added expected drawn =
        and_then_elim (Meets (append_file path added expected drawn))
          (expect A P d ctx path expected) _ (λ e h n h'. ground arith)
          (λ v h.
            and_then_elim (Meets (append_file path added expected drawn))
              (checked A P d (read_text A P d ctx path)) _ (λ e h n h'. ground arith)
              (λ t r.
                let (b, here, is_text) =
                  read_inv P (A.get_object d.store (key_of ctx path) none) t r in
                stored_meets (append_file path added expected drawn) path Operation.append
                  (P.encode (t ++ added)) drawn
                  (λ d' same. (
                    b,
                    here,
                    subst
                        (λ x.
                          IsContents (set_content path (some (P.encode (x ++ added))) (contents d))
                            (contents d'))
                        (sym is_text) same,
                  ))))

    pub edit_meets :
        (path old new : Text) (expected : Option ℕ) (drawn : Drawn)
        → Meets (edit_file path old new expected drawn) (edit A P d ctx path old new expected drawn)
    unfolding edit
    edit_meets path old new expected drawn =
        and_then_elim (Meets (edit_file path old new expected drawn))
          (expect A P d ctx path expected) _ (λ e h n h'. ground arith)
          (λ v h.
            and_then_elim (Meets (edit_file path old new expected drawn))
              (checked A P d (read_text A P d ctx path >>= λ current. edit_text current old new)) _
              (λ e h n h'. ground arith)
              (λ t r.
                let (current, read, edited) = bind_inv (read_text A P d ctx path) _ t r in
                let (b, here, is_text) =
                  read_inv P (A.get_object d.store (key_of ctx path) none) current read in
                stored_meets (edit_file path old new expected drawn) path Operation.edit
                  (P.encode t) drawn
                  (λ d' same. (
                    b,
                    t,
                    here,
                    subst (λ x. edit_text x old new ≡ ok t) (sym is_text) edited,
                    same,
                  ))))
