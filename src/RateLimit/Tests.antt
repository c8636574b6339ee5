-- ===== src/RateLimit/Tests.antt =====
-- A limit of two requests.
use agent_fs.Prelude.{◌≤◌, ◌≡◌, refl, true, false, [], ◌∷◌, arith}
use agent_fs.Sql.{count_where}
use agent_fs.RateLimit.{admit}
use agent_fs.RateLimit.Window.{Step, Run, passed_bound, is_within}

admit_tests :
    (admit 2 1000 [] ≡ (true, 1000 ∷ []))
    × (admit 2 61000 (1000 ∷ 2000 ∷ []) ≡ (true, 2000 ∷ 61000 ∷ []))
    × (admit 2 60999 (1000 ∷ 2000 ∷ []) ≡ (false, 1000 ∷ 2000 ∷ []))
unfolding admit
admit_tests = (refl, refl, refl)

passed_bound_example : count_where (is_within 1500) (1000 ∷ []) ≤ 2
passed_bound_example =
    passed_bound {limit = 2}
      (Run.then_step Run.start (Step.pass 1000 (1000 ∷ []) (omega arith) admit_tests.0)) 1500
