-- ===== src/RateLimit/Tests.antt =====
-- Runs of the rate limiter, and the theorem at one.
use fastapi_infra.Common.{string_eq, ℕ, String, true, false, List, [], ◌∷◌, ◌≡◌, refl, arith}
use fastapi_infra.Common.Int.{pos}
use fastapi_infra.Common.Dict.{lookup, insert}
use fastapi_infra.RateLimit.{allow}
use fastapi_infra.RateLimit.Window.{run, ideal_allow}
use fastapi_infra.RateLimit.Window

abbrev calls : List (ℕ × String)
calls = (1, "a") ∷ (2, "a") ∷ (3, "a") ∷ (3, "b") ∷ (12, "a") ∷ []

-- Two a key in ten ticks
two_each : run allow (pos 2) (pos 10) calls [] ≡ true ∷ true ∷ false ∷ true ∷ true ∷ []
unfolding run allow lookup insert string_eq
two_each = refl

allow-refines_example :
    run allow (pos 2) (pos 10) calls [] ≡ run ideal_allow (pos 2) (pos 10) calls []
allow-refines_example =
    Window.allow-refines (pos 2) (pos 10) calls
      (omega arith, (omega arith, (omega arith, (omega arith, (omega arith, tt)))))
