-- ===== src/Errkit/Tests.antt =====
-- The theorems on the limiter at a concrete run.
use gofin.Prelude.{◌≡◌, refl, none, [], ◌∷◌}
use gofin.Errkit.{allow, ◌-ℤ◌, pos, allowed_times, Limiter}
use gofin.Errkit.Spaced.{limiter-Spaced, Answers, SpacedFrom}
use gofin.Prelude.Int.{◌-ℤ◌, pos}

abbrev every_ten : Limiter
every_ten = record { window = pos 10; reported = none }

burst_run : allowed_times every_ten (pos 5 ∷ pos 7 ∷ pos 15 ∷ pos 16 ∷ []) ≡ pos 5 ∷ pos 15 ∷ []
unfolding allowed_times ◌-ℤ◌
burst_run = refl

limiter-Spaced_example :
    SpacedFrom (pos 10) none (allowed_times every_ten (pos 5 ∷ pos 7 ∷ pos 15 ∷ []))
    × Answers every_ten (pos 5) (allow (pos 5) every_ten)
limiter-Spaced_example = limiter-Spaced every_ten (pos 5 ∷ pos 7 ∷ pos 15 ∷ []) (pos 5)
