-- ===== src/RateLimit/Window.antt =====
-- The requests that pass in a minute.
use agent_fs.Prelude.{
  ℕ, ◌+◌, ◌≤◌, ◌≡◌, refl, sym, Bool, true, false, ◌&&◌, List, [], ◌∷◌, ◌++◌, leb, ltb, keep_if,
  if◌then◌else◌, arith,
}
use agent_fs.Sql.{count_where}
use agent_fs.RateLimit.{window_ms, is_recent, admit, clean}

-- within the minute that ends at `t`
abbrev pub is_within : ℕ → ℕ → Bool
is_within t passed = leb passed t && ltb t (passed + window_ms)

abbrev bit : Bool → ℕ
bit b = if b then 1 else 0

count-append :
    (p : ℕ → Bool) (xs : List ℕ) (x : ℕ)
    → count_where p (xs ++ x ∷ []) ≡ count_where p xs + bit (p x)
count-append p [] x = ground arith
count-append p (y ∷ xs) x = ground (arith, count-append p xs x)

count-recent :
    (now t : ℕ) (xs : List ℕ)
    → now ≤ t
    → count_where (is_recent t) (keep_if (is_recent now) xs) ≡ count_where (is_recent t) xs
count-recent now t [] h = refl
count-recent now t (x ∷ xs) h = ground (arith, count-recent now t xs h)

count-later :
    (now t : ℕ) (xs : List ℕ)
    → now ≤ t
    → count_where (is_recent t) xs ≤ count_where (is_recent now) xs
count-later now t [] h = omega arith
count-later now t (x ∷ xs) h = ground (arith, count-later now t xs h)

-- The clock, the times kept, and the times of all requests that passed.
pub record State : Type 0 where
  pub clock : ℕ
  pub timestamps : List ℕ
  pub passed : List ℕ

pub data Step (limit : ℕ) (s : State) : State → Type 0 where
  pass :
      (now : ℕ) (timestamps : List ℕ)
      → s.clock ≤ now
      → admit limit now s.timestamps ≡ (true, timestamps)
      → Step limit s (record { clock = now; timestamps = timestamps; passed = now ∷ s.passed })
  refuse :
      (now : ℕ) (timestamps : List ℕ)
      → s.clock ≤ now
      → admit limit now s.timestamps ≡ (false, timestamps)
      → Step limit s (record { clock = now; timestamps = timestamps; passed = s.passed })
  cleaned :
      (now : ℕ)
      → s.clock ≤ now
      → Step limit s
          (record { clock = now; timestamps = clean now s.timestamps; passed = s.passed })

record IsLimited (limit : ℕ) (s : State) : Type 0 where
  within : (t : ℕ) → count_where (is_within t) s.passed ≤ limit
  known :
      (t : ℕ)
      → s.clock ≤ t
      → count_where (is_within t) s.passed ≤ count_where (is_recent t) s.timestamps

Step-IsLimited :
    {limit : ℕ} {s s' : State} → Step limit s s' → IsLimited limit s → IsLimited limit s'
unfolding admit clean
Step-IsLimited {limit} {s} (pass now timestamps later h) i =
    let room : leb limit (count_where (is_recent now) s.timestamps) ≡ false = ground arith in
    let kept : keep_if (is_recent now) s.timestamps ++ now ∷ [] ≡ timestamps = ground arith in
    record {
      within = λ t. ground (arith, i.within t, i.known t, count-later now t s.timestamps);
      known = λ t h'. rw (sym kept) (
          ground (
            arith,
            i.known t,
            count-append (is_recent t) (keep_if (is_recent now) s.timestamps) now,
            count-recent now t s.timestamps,
          ));
    }
Step-IsLimited {limit} {s} (refuse now timestamps later h) i =
    let kept : s.timestamps ≡ timestamps = ground arith in
    record { within = i.within; known = λ t h'. rw (sym kept) (i.known t (omega arith)) }
Step-IsLimited {limit} {s} (cleaned now later) i = record {
  within = i.within;
  known = λ t h'. omega (arith, i.known t (omega arith), count-recent now t s.timestamps h');
}

pub data Run (limit : ℕ) (s : State) : State → Type 0 where
  start : Run limit s s
  then_step : {s' s'' : State} → Run limit s s' → Step limit s' s'' → Run limit s s''

abbrev pub idle : State
idle = record { clock = 0; timestamps = []; passed = [] }

-- From no requests, with a clock that does not go back: in no minute, wherever it ends, do more
-- requests of a key pass than the limit.
pub passed_bound :
    {limit : ℕ} {s : State}
    → Run limit idle s
    → (t : ℕ) → count_where (is_within t) s.passed ≤ limit
passed_bound {limit} run t = (limited run).within t
  where
    limited : {s : State} → Run limit idle s → IsLimited limit s
    limited start = record { within = λ t. omega arith; known = λ t h. omega arith }
    limited (then_step r step) = Step-IsLimited step (limited r)
