-- ===== src/Files/Versions/Interleaved.antt =====
-- Requests that interleave: each reads the next version of its file, and later commits it.
use agent_fs.Prelude.{
  ℕ, suc, zero, ◌+◌, ◌≤◌, ◌≡◌, refl, subst, some, List, [], ◌∷◌, ◌++◌, Text, arith, All, get_elem?,
  leb, leb→le, Bool-cases, inl, inr,
}
use agent_fs.Errors.{ok}
use agent_fs.Webhooks.{WebhookDb}
use agent_fs.Files.{FileVersion, FileDb, OpContext, max_version}
use agent_fs.Files.Versions.{
  get_next_version, VersionParams, Drawn, new_version, create_version_at, committed,
}
use agent_fs.Files.Versions.Laws.{max_version-append}
use agent_fs.Files.Versions.Invariant.{
  IsVersioned, IsLast, create_version_at-last, committed-IsVersioned, create_version_at-stale,
}

-- A read that a request has made.
pub record Read : Type 0 where
  pub ctx : OpContext
  pub path : Text
  pub version : ℕ

pub record State : Type 0 where
  pub db : FileDb
  pub reads : List Read

abbrev read_of : FileDb → OpContext → Text → Read
read_of db ctx path = record { ctx = ctx; path = path; version = get_next_version db ctx path }

pub data Step (s : State) : State → Type 0 where
  read :
      (ctx : OpContext) (path : Text)
      → Step s (record s { reads = read_of s.db ctx path ∷ s.reads })
  commit :
      (i : ℕ) (r : Read) (params : VersionParams) (drawn : Drawn) (db' : FileDb)
      → get_elem? s.reads i ≡ some r
      → params.path ≡ r.path
      → create_version_at s.db r.ctx params drawn r.version ≡ ok db'
      → Step s (record s { db = db' })
  webhooks : (w : WebhookDb) → Step s (record s { db = record s.db { webhooks = w } })

-- What a read says of the tables that it is compared with later.
abbrev Bounded : FileDb → Read → Type 0
Bounded db r = (1 ≤ r.version) × (r.version ≤ max_version r.path r.ctx.drive_id db.versions + 1)

Bounded-append :
    (db db' : FileDb) (row : FileVersion) (reads : List Read)
    → db'.versions ≡ db.versions ++ row ∷ []
    → All (Bounded db) reads
    → All (Bounded db') reads
Bounded-append db db' row [] e h = tt
Bounded-append db db' row (r ∷ reads) e (b, h) = (
  rw e (omega (arith, max_version-append r.path r.ctx.drive_id row db.versions)),
  Bounded-append db db' row reads e h,
)

Bounded-get :
    (db : FileDb) (reads : List Read) (i : ℕ) (r : Read)
    → All (Bounded db) reads
    → get_elem? reads i ≡ some r
    → Bounded db r
Bounded-get db [] i r h e = ground arith
Bounded-get db (x ∷ reads) zero r (b, h) e = ground arith
Bounded-get db (x ∷ reads) (suc i) r (b, h) e = Bounded-get db reads i r h e

-- A commit that succeeds had the next version.
commit-last :
    (db db' : FileDb) (ctx : OpContext) (params : VersionParams) (drawn : Drawn) (version : ℕ)
    → IsVersioned db
    → 1 ≤ version
    → version ≤ max_version params.path ctx.drive_id db.versions + 1
    → create_version_at db ctx params drawn version ≡ ok db'
    → IsLast db ctx params drawn version
commit-last db db' ctx params drawn version i low high h =
    elim (Bool-cases (leb version (max_version params.path ctx.drive_id db.versions))) [
      | inl old ↦ ground (
        arith,
        create_version_at-stale db ctx params drawn version i low
            (leb→le version (max_version params.path ctx.drive_id db.versions) old),
      )
      | inr new ↦ ground arith
    ]

pub record IsConsistent (s : State) : Type 0 where
  pub versioned : IsVersioned s.db
  pub bounded : All (Bounded s.db) s.reads

committed-IsConsistent :
    (s : State) (ctx : OpContext) (params : VersionParams) (drawn : Drawn) (version : ℕ)
    (db' : FileDb)
    → IsConsistent s
    → IsLast s.db ctx params drawn version
    → create_version_at s.db ctx params drawn version ≡ ok db'
    → IsConsistent (record s { db = db' })
committed-IsConsistent s ctx params drawn version db' c last h =
    let same : committed s.db ctx params drawn version ≡ db' =
      ground (arith, create_version_at-last s.db ctx params drawn version last) in
    subst (λ x. IsConsistent (record s { db = x })) same
      (record {
        versioned = committed-IsVersioned s.db ctx params drawn version c.versioned last;
        bounded =
            Bounded-append s.db (committed s.db ctx params drawn version)
              (new_version ctx params version drawn.now) s.reads refl c.bounded;
      })

Step-IsConsistent : {s s' : State} → Step s s' → IsConsistent s → IsConsistent s'
unfolding get_next_version
Step-IsConsistent {s} (read ctx path) c = record {
  versioned = c.versioned;
  bounded = ((omega arith, omega arith), c.bounded);
}
Step-IsConsistent {s} (commit i r params drawn db' e path h) c =
    let b = Bounded-get s.db s.reads i r c.bounded e in
    let last = commit-last s.db db' r.ctx params drawn r.version c.versioned b.0 (rw path b.1) h in
    committed-IsConsistent s r.ctx params drawn r.version db' c last h
Step-IsConsistent {s} (webhooks w) c = record {
  versioned = record {
    agrees = c.versioned.agrees;
    dense = c.versioned.dense;
    distinct = c.versioned.distinct;
  };
  bounded = same s.reads c.bounded;
}
  where
    same :
        (reads : List Read)
        → All (Bounded s.db) reads
        → All (Bounded (record s.db { webhooks = w })) reads
    same [] h = h
    same (r ∷ reads) (b, h) = (b, same reads h)

pub data Run (s : State) : State → Type 0 where
  start : Run s s
  then_step : {s' s'' : State} → Run s s' → Step s' s'' → Run s s''

-- From tables where it holds and no read is pending: however requests interleave their reads of the
-- next version and their commits, a file's versions are exactly 1 to the highest with no version
-- twice, and the row of a file says its highest version, and that it is deleted exactly when that
-- version is a delete.
pub Run-IsVersioned :
    {db : FileDb} {s : State}
    → IsVersioned db
    → Run (record { db = db; reads = [] }) s
    → IsVersioned s.db
Run-IsVersioned {db} {s} i run = (consistent run).versioned
  where
    consistent : {s : State} → Run (record { db = db; reads = [] }) s → IsConsistent s
    consistent start = record { versioned = i; bounded = tt }
    consistent (then_step r step) = Step-IsConsistent step (consistent r)
