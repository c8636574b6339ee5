-- ===== src/Storage/Memory.antt =====
-- A backend in memory that keeps the contract at every key, for the tests of what relies on it: the
-- current objects, and the versions of all keys under the hash of their bytes.
use agent_fs.Prelude.{
  ℕ, ◌+◌, ◌%◌, ◌≡◌, refl, sym, ◌∙◌, ap, ◌⊎◌, subst, inl, inr, Bool, true, false, Option, none, some,
  List, [], ◌∷◌, map, Text, ◌===◌, ===_iff, ===_refl, eq_of_===, arith, length, find?, Bool-cases,
  Option-cases,
}
use agent_fs.Errors.{Result, ok, err, AgentError, no_such_key, validation}
use agent_fs.Sql.{delete_where}
use agent_fs.Storage.{
  Bytes, Platform, PutObjectResult, GetObjectResult, HeadObjectResult, StorageAdapter, IsStorage,
  IsPut, IsDeletion, Holds, Keeps, body_of,
}

abbrev pub Memory : Type 0
Memory = List (Text × GetObjectResult)

abbrev pub has_key : Text → Text × GetObjectResult → Bool
has_key key row = row.0 === key

abbrev object : Option (Text × GetObjectResult) → Option GetObjectResult
object none = none
object (some row) = some row.1

abbrev pub lookup : Memory → Text → Option GetObjectResult
lookup s key = object (find? (has_key key) s)

abbrev pub stored : Bytes → Option Text → GetObjectResult
stored b t = record { body = b; content_type = t }

pub lookup_here :
    (s : Memory) (key : Text) (o : GetObjectResult) → lookup ((key, o) ∷ s) key ≡ some o
lookup_here s key o = rw (===_refl key) refl

pub lookup_other :
    (s : Memory) (key j : Text) (o : GetObjectResult)
    → key === j ≡ false
    → lookup ((key, o) ∷ s) j ≡ lookup s j
lookup_other s key j o h = rw h refl

pub lookup_deleted : (s : Memory) (key : Text) → lookup (delete_where (has_key key) s) key ≡ none
lookup_deleted [] key = refl
lookup_deleted (row ∷ s) key = elim (Bool-cases (row.0 === key)) [
  | inl here ↦ rw here (lookup_deleted s key)
  | inr other ↦ rw other (rw other (lookup_deleted s key))
]

pub lookup_kept :
    (s : Memory) (key j : Text)
    → key === j ≡ false
    → lookup (delete_where (has_key key) s) j ≡ lookup s j
lookup_kept [] key j h = refl
lookup_kept (row ∷ s) key j h = elim (Bool-cases (row.0 === key)) [
  | inl here ↦
      let differ : row.0 === j ≡ false =
        ground (arith, ===_iff row.0 key, ===_iff row.0 j, ===_iff key j) in
      rw (here, differ) (lookup_kept s key j h)
  | inr other ↦ rw other (elim (Bool-cases (row.0 === j)) [
    | inl there ↦ rw there refl
    | inr not_there ↦ rw not_there (lookup_kept s key j h)
  ])
]

-- A digest for tests, in hexadecimal digits.
abbrev pub digit : ℕ → ℕ
digit c = 48 + c % 10

abbrev pub platform : Platform
platform = record {
  sha256 = λ b. 48 ∷ map digit b;
  encode = λ t. t;
  decode = λ b. b;
  decode_strict = λ b. some b;
}

pub record Stores : Type 0 where
  pub current : Memory
  pub versions : Memory

abbrev found : Option GetObjectResult → Result GetObjectResult
found none = err no_such_key
found (some o) = ok o

abbrev head_of : Option GetObjectResult → Result HeadObjectResult
head_of none = err no_such_key
head_of (some o) = ok (record { content_type = o.content_type; size = length o.body; etag = none })

module _ (P : Platform) where
  abbrev put : Stores → Text → Bytes → Option Text → Stores × Result PutObjectResult
  put s key b t = (
    record {
      current = (key, stored b t) ∷ s.current;
      versions = (P.sha256 b, stored b t) ∷ s.versions;
    },
    ok (record { etag = some (P.sha256 b); version_id = some (P.sha256 b) }),
  )

  abbrev get : Stores → Text → Option Text → Result GetObjectResult
  get s key none = found (lookup s.current key)
  get s key (some v) = found (lookup s.versions v)

  abbrev copied : Stores → Text → Option GetObjectResult → Stores × Result PutObjectResult
  copied s to none = (s, err no_such_key)
  copied s to (some o) = put s to o.body o.content_type

  abbrev pub backend : StorageAdapter
  backend = record {
    State = Stores;
    has_versioning = true;
    put_object = put;
    get_object = get;
    delete_object = λ s key. (record s { current = delete_where (has_key key) s.current }, ok tt);
    copy_object = λ s from to. copied s to (lookup s.current from);
    head_object = λ s key. head_of (lookup s.current key);
  }

  abbrev pub IsNamed : Stores → Type 0
  IsNamed s = (v : Text) (o : GetObjectResult) → lookup s.versions v ≡ some o → P.sha256 o.body ≡ v

  abbrev pub AnyKey : Text → Type 0
  AnyKey key = Unit

  pub put-IsNamed :
      (s : Stores) (key : Text) (b : Bytes) (t : Option Text)
      → IsNamed s
      → IsNamed (put s key b t).0
  put-IsNamed s key b t i v o e = elim (Bool-cases (P.sha256 b === v)) [
    | inr other ↦ i v o (sym (lookup_other s.versions (P.sha256 b) v (stored b t) other) ∙ e)
    | inl same ↦
        let eq : P.sha256 b ≡ v = eq_of_=== (P.sha256 b) v same in
        let o_is : stored b t ≡ o = ground (arith, (rw same at e)) in
        ap (λ (x : GetObjectResult). P.sha256 x.body) (sym o_is) ∙ eq
  ]

  put-Keeps :
      (s : Stores) (key : Text) (b : Bytes) (t : Option Text)
      → IsNamed s
      → Keeps backend P.sha256 s (put s key b t).0
  put-Keeps s key b t i k v x nz (b', e, hx) = elim (Bool-cases (P.sha256 b === v)) [
    | inr other ↦ (b', rw (lookup_other s.versions (P.sha256 b) v (stored b t) other) e, hx)
    | inl same ↦ elim (Option-cases (lookup s.versions v)) [
      | inl missing ↦ ground (arith, (rw missing at e))
      | inr (o, there) ↦
          let body : o.body ≡ b' = ground (arith, (rw there at e)) in
          (
            b,
            rw same refl,
            eq_of_=== (P.sha256 b) v same ∙ sym (i v o there) ∙ ap P.sha256 body ∙ hx,
          )
    ]
  ]

  pub put-IsPut :
      (s : Stores) (key : Text) (b : Bytes) (t : Option Text)
      → IsNamed s
      → IsPut backend P.sha256 AnyKey s key b (put s key b t)
  put-IsPut s key b t i = record {
    here = λ r h. rw (lookup_here s.current key (stored b t)) refl;
    failed = λ e h. ground arith;
    other = λ j k differ. rw (lookup_other s.current key j (stored b t) differ) refl;
    handle = λ r v h hv.
        let same : P.sha256 b ≡ v = ground (arith, h, hv) in
        subst (λ x. Holds backend P.sha256 (put s key b t).0 key x (P.sha256 b)) same
          (b, rw (lookup_here s.versions (P.sha256 b) (stored b t)) refl, refl);
    keeps = put-Keeps s key b t i;
  }

  pub delete-IsDeletion :
      (s : Stores) (key : Text)
      → IsDeletion backend P.sha256 AnyKey s key (backend.delete_object s key)
  delete-IsDeletion s key = record {
    gone = λ h. rw (lookup_deleted s.current key) refl;
    failed = λ e h. ground arith;
    other = λ j k differ. rw (lookup_kept s.current key j differ) refl;
    keeps = λ k v x nz held. kept k v x nz held;
  }
    where
      kept : Keeps backend P.sha256 s (backend.delete_object s key).0
      kept k v x nz held = held

  pub copied-IsPut :
      (s : Stores) (from to : Text) (b : Bytes) (o : Option GetObjectResult)
      → IsNamed s
      → body_of (found o) ≡ some b
      → IsPut backend P.sha256 AnyKey s to b (copied s to o)
  copied-IsPut s from to b none i e = ground arith
  copied-IsPut s from to b (some o) i e =
      let same : o.body ≡ b = ground (arith, e) in
      subst (λ x. IsPut backend P.sha256 AnyKey s to x (put s to o.body o.content_type)) same
        (put-IsPut s to o.body o.content_type i)

  pub copied-IsNamed :
      (s : Stores) (to : Text) (o : Option GetObjectResult) → IsNamed s → IsNamed (copied s to o).0
  copied-IsNamed s to none i = i
  copied-IsNamed s to (some o) i = put-IsNamed s to o.body o.content_type i

  pub unread :
      (s : Stores) (from to : Text) (o : Option GetObjectResult)
      → body_of (found o) ≡ none
      → (e : AgentError) × (copied s to o ≡ (s, err e))
        × (found o ≡ err no_such_key → (e ≡ no_such_key) ⊎ (e ≡ validation))
  unread s from to none h = (no_such_key, refl, λ m. inl refl)
  unread s from to (some o) h = ground arith

  abbrev pub lawful : IsStorage backend P.sha256
  lawful = record {
    IsKey = AnyKey;
    IsValid = IsNamed;
    put = λ s key b t k i. put-IsPut s key b t i;
    copy = λ s from to b k i e. copied-IsPut s from to b (lookup s.current from) i e;
    copy_unread = λ s from to h. unread s from to (lookup s.current from) h;
    delete = λ s key k i. delete-IsDeletion s key;
    put-valid = λ s key b t k i. put-IsNamed s key b t i;
    copy-valid = λ s from to k i. copied-IsNamed s to (lookup s.current from) i;
    delete-valid = λ s key k i. i;
  }
