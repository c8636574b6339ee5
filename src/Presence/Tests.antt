-- ===== src/Presence/Tests.antt =====
-- A registry with one session.
use agent_fs.Prelude.{ℕ, ◌≡◌, refl, none, some, List, [], ◌∷◌, text, ◌===◌}
use agent_fs.Errors.{Result, ok, err}
use agent_fs.Presence.{
  Session, Entry, Published, entry_of, ensured, upsert, remove, bind, release, sweep_from, sweep,
}
use agent_fs.Presence.Ensured.{IsPresence}
use agent_fs.Presence.Owned.{start, then_step, upserted, owned}
use agent_fs.Presence.Runs.{Step, Run, Run-IsPresence}

runs : Unit {0}
unfolding ◌===◌ entry_of ensured upsert remove bind release sweep_from sweep
runs = tt

abbrev shown_at : ℕ → Session
shown_at now = record {
  state = text "a.md";
  email = text "ann@x";
  display_name = none;
  updated_at = now;
}

abbrev ann : Entry
ann = record {
  session_id = text "s1";
  user_id = text "ann";
  session = some (shown_at 1000);
  last_seen = 1000;
  bindings = 0;
}

upsert_test :
    upsert [] (text "s1") (text "ann") (text "ann@x") none (text "a.md") 1000
    ≡ ok (ann ∷ [], Published.updated (shown_at 1000))
unfolding runs
upsert_test = refl

-- Unchanged state publishes nothing; an old session is swept, unless a stream is open.
other_tests :
    (upsert (ann ∷ []) (text "s1") (text "ann") (text "ann@x") none (text "a.md") 2000
      ≡ ok (record ann { last_seen = 2000 } ∷ [], Published.nothing))
    × (sweep 46000 (ann ∷ []) ≡ ann ∷ [])
    × (sweep 46001 (ann ∷ []) ≡ [])
    × (sweep 46001 (record ann { bindings = 1 } ∷ []) ≡ record ann { bindings = 1 } ∷ [])
unfolding runs
other_tests = (refl, refl, refl, refl)

Run-IsPresence_example : IsPresence (sweep 46001 (ann ∷ []))
Run-IsPresence_example = Run-IsPresence (
    Run.then_step
      (Run.then_step Run.start (
        Step.upserted (text "s1") (text "ann") (text "ann@x") none (text "a.md") 1000
          (ann ∷ [], Published.updated (shown_at 1000)) upsert_test))
      (Step.swept 46001))

abbrev or_nothing : Result (List Entry × Published) → List Entry × Published
or_nothing (ok r) = r
or_nothing (err e) = ([], Published.nothing)

abbrev bob_too : List Entry × Published
bob_too =
    or_nothing (upsert (ann ∷ []) (text "s2") (text "bob") (text "bob@x") none (text "b.md") 2000)

owned_example : entry_of (text "s1") bob_too.0 ≡ some ann
unfolding runs
owned_example = owned (text "s1") (text "ann") ann {entries = ann ∷ []} refl refl (
    then_step start
      (upserted (text "s2") (text "bob") (text "bob@x") none (text "b.md") 2000 bob_too refl refl))
