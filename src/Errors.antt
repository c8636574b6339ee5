-- ===== src/Errors.antt =====
-- packages/core/src/errors.ts: the error classes, and the result of code that may throw.
-- An error keeps its class; messages and suggestions are not modelled. `plain` stands for a bare
-- `Error`, `agent_fs_error` for an error made of the base class itself, and `no_such_key` for a storage
-- backend's error of a missing object, in any of the shapes that storage/adapter.ts lists; `files_error`
-- is an error of files-sdk or of Node that no code translates; both kinds have a code.
use agent_fs.Prelude.{ℕ, ◌≡◌, refl, inl, inr, ◌⊎◌}

pub data AgentError : Type 0 where
  not_found permission_denied edit_conflict indexing_in_progress validation : AgentError
  embedding_provider unsupported_operation presence_limit agent_fs_error plain : AgentError
  no_such_key files_error : AgentError

pub data Result {ℓ} (A : Type ℓ) : Type ℓ where
  ok : A → Result A
  err : AgentError → Result A

infixl 10 ◌>>=◌ ◌>>◌
abbrev pub ◌>>=◌ {ℓ κ} : {A : Type ℓ} {B : Type κ} → Result A → (A → Result B) → Result B
ok a >>= f = f a
err e >>= f = err e

abbrev pub ◌>>◌ {ℓ κ} : {A : Type ℓ} {B : Type κ} → Result A → Result B → Result B
m >> n = m >>= λ _. n

-- Code that changes a state before it may throw: what it changed stays.
abbrev pub and_then {ℓ κ μ} :
    {S : Type ℓ} {A : Type κ} {B : Type μ} → S × Result A → (S → A → S × Result B) → S × Result B
and_then (s, ok a) f = f s a
and_then (s, err e) f = (s, err e)

pub and_then_elim {ℓ κ μ ν} :
    {S : Type ℓ} {A : Type κ} {B : Type μ} (Q : S × Result B → Type ν) (m : S × Result A)
    (f : S → A → S × Result B)
    → ((e : AgentError) → m.1 ≡ err e → Q (m.0, err e))
    → ((a : A) → m.1 ≡ ok a → Q (f m.0 a))
    → Q (and_then m f)
and_then_elim Q (s, ok a) f failed went = went a refl
and_then_elim Q (s, err e) f failed went = failed e refl

-- `getStatusCode` of packages/server/src/middleware/error.ts, in the order of its tests.
unfoldable pub get_status_code : AgentError → ℕ
get_status_code not_found = 404
get_status_code permission_denied = 403
get_status_code edit_conflict = 409
get_status_code indexing_in_progress = 503
get_status_code validation = 400
get_status_code unsupported_operation = 422
get_status_code embedding_provider = 502
get_status_code presence_limit = 429
get_status_code agent_fs_error = 400
get_status_code plain = 500
get_status_code no_such_key = 500
get_status_code files_error = 400

status_of_conflict : get_status_code edit_conflict ≡ 409
unfolding get_status_code
status_of_conflict = refl

pub Result-cases {ℓ} :
    {A : Type ℓ} (r : Result A) → ((a : A) × (r ≡ ok a)) ⊎ ((x : AgentError) × (r ≡ err x))
Result-cases (ok a) = inl (a, refl)
Result-cases (err x) = inr (x, refl)
