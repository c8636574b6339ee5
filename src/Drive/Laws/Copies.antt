-- ===== src/Drive/Laws/Copies.antt =====
-- An object copied, read back and recorded: cp, and the first part of mv.
use agent_fs.Prelude.{
  ◌≡◌, refl, sym, ap, subst, ◌∙◌, ◌⊎◌, inl, inr, none, some, Text, arith, Option-cases, ℕ,
}
use agent_fs.Errors.{Result, ok, err, AgentError, no_such_key, validation, and_then_elim}
use agent_fs.Storage.{
  Bytes, Platform, StorageAdapter, PutObjectResult, HeadObjectResult, GetObjectResult, IsStorage,
  IsPut, body_of,
}
use agent_fs.Files.{OpContext}
use agent_fs.Files.Versions.{Drawn}
use agent_fs.Files.Write.Laws.{after}
use agent_fs.Drive.{Drive, key_of, with_store, checked, copied_version, copy_and_record}
use agent_fs.Drive.Laws.{
  IsDriveContext, IsRecorded, view, view_of_set, store-IsRecorded, after-IsRecorded,
  after-IsCurrent,
}
use agent_fs.Drive.Laws.Stores.{IsGiven, record_version-ok, Holds_of_put}

module _ (A : StorageAdapter) (P : Platform) (L : IsStorage A P.sha256) (ctx : OpContext)
    (own : IsDriveContext A P L ctx) (d : Drive A) (from to : Text) (drawn : Drawn)
    (i : IsRecorded A P L ctx d) where
  abbrev pub out : A.State × Result PutObjectResult
  out = A.copy_object d.store (key_of ctx from) (key_of ctx to)

  abbrev pub copied : Drive A
  copied = record { db = d.db; store = out.0 }

  abbrev pub made : PutObjectResult → HeadObjectResult → GetObjectResult → Drive A
  made r head obj = record {
    db = after d.db ctx (copied_version A P to r head obj) drawn;
    store = out.0;
  }

  module _ (b : Bytes) (source : view A P L ctx d from ≡ some b) where
    pub is_put : IsPut A P.sha256 L.IsKey d.store (key_of ctx to) b out
    is_put = L.copy d.store (key_of ctx from) (key_of ctx to) b (own.keys to) i.valid source

    copied_recorded : IsRecorded A P L ctx copied
    copied_recorded =
        store-IsRecorded A P L ctx d out.0
          (L.copy-valid d.store (key_of ctx from) (key_of ctx to) (own.keys to) i.valid)
          is_put.keeps i

    -- What is read back is what was copied.
    read_back :
        (r : PutObjectResult) (obj : GetObjectResult)
        → out.1 ≡ ok r
        → A.get_object out.0 (key_of ctx to) none ≡ ok obj
        → obj.body ≡ b
    read_back r obj e g = ground (arith, ap body_of g, is_put.here r e)

    made_recorded :
        (r : PutObjectResult) (head : HeadObjectResult) (obj : GetObjectResult)
        → out.1 ≡ ok r
        → obj.body ≡ b
        → IsRecorded A P L ctx (made r head obj)
    made_recorded r head obj e same =
        after-IsRecorded A P L ctx copied (copied_version A P to r head obj) drawn
          (λ nz x hx.
            Holds_of_put A P L ctx own out.0 to b r (λ v ev. is_put.handle r v e ev) nz x
              (ap (λ y. some (P.sha256 y)) (sym same) ∙ hx))
          copied_recorded

    made-IsGiven :
        (r : PutObjectResult) (head : HeadObjectResult) (obj : GetObjectResult)
        → out.1 ≡ ok r
        → obj.body ≡ b
        → IsGiven A P L ctx own d to (some b) (made r head obj)
    made-IsGiven r head obj e same = record {
      same =
          view_of_set A P L ctx own d (made r head obj) to (some b) (is_put.here r e) is_put.other;
      elsewhere = is_put.other;
      grows = (_, refl);
      recorded = made_recorded r head obj e same;
      current =
          after-IsCurrent A P L ctx own d (made r head obj) to (copied_version A P to r head obj)
            drawn refl refl is_put.other
            (λ x hx. (b, is_put.here r e, (ground (arith, hx, ap P.sha256 same))));
    }

    copy_read :
        (Q : Drive A × Result ℕ → Type 0)
        → ((e : AgentError) → Q (copied, err e))
        → ((r : PutObjectResult) (head : HeadObjectResult) (obj : GetObjectResult) (n : ℕ)
            → out.1 ≡ ok r
            → obj.body ≡ b
            → Q (made r head obj, ok n))
        → Q (copy_and_record A P d ctx from to drawn)
    unfolding copy_and_record
    copy_read Q failed went =
        and_then_elim Q (with_store A P d out) _ (λ e h. failed e)
          (λ r h.
            and_then_elim Q (checked A P copied (A.head_object out.0 (key_of ctx to))) _
              (λ e h'. failed e)
              (λ head h'.
                and_then_elim Q (checked A P copied (A.get_object out.0 (key_of ctx to) none)) _
                  (λ e h''. failed e)
                  (λ obj g.
                    subst Q
                      (sym
                        (record_version-ok A P ctx copied (copied_version A P to r head obj) drawn))
                      (went r head obj _ h (read_back r obj h g)))))

  -- Without a source that can be read nothing happens.
  pub copy_unread :
      view A P L ctx d from ≡ none
      → (e : AgentError) × (copy_and_record A P d ctx from to drawn ≡ (d, err e))
        × (A.get_object d.store (key_of ctx from) none ≡ err no_such_key
            → (e ≡ no_such_key) ⊎ (e ≡ validation))
  unfolding copy_and_record
  copy_unread h =
      let (e, failed, kind) = L.copy_unread d.store (key_of ctx from) (key_of ctx to) h in
      (e, rw failed refl, kind)

  -- Every way that the copy ends: nothing changed, an attempt to store, or a recorded copy.
  pub copy_and_record-elim :
      (Q : Drive A × Result ℕ → Type 0)
      → ((e : AgentError) → Q (d, err e))
      → ((b : Bytes) (e : AgentError)
          → view A P L ctx d from ≡ some b
          → IsPut A P.sha256 L.IsKey d.store (key_of ctx to) b out
          → IsRecorded A P L ctx copied
          → Q (copied, err e))
      → ((b : Bytes) (d' : Drive A) (n : ℕ)
          → view A P L ctx d from ≡ some b
          → IsGiven A P L ctx own d to (some b) d'
          → Q (d', ok n))
      → Q (copy_and_record A P d ctx from to drawn)
  copy_and_record-elim Q unread failed went = elim (Option-cases (view A P L ctx d from)) [
    | inl h ↦ let (e, same, kind) = copy_unread h in subst Q (sym same) (unread e)
    | inr (b, h) ↦
        copy_read b h Q (λ e. failed b e h (is_put b h) (copied_recorded b h))
          (λ r head obj n e same. went b (made r head obj) n h (made-IsGiven b h r head obj e same))
  ]
