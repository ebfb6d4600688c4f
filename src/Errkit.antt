-- ===== src/Errkit.antt =====
-- services/errkit/limiter.go: one report per window at a reporting site. Times are nanoseconds, and
-- the zero time, before any report, is `none`.
pub mod Spaced
pub mod Tests
use gofin.Prelude.{if◌then◌else◌, Bool, true, false, Option, none, some, List, [], ◌∷◌}
use gofin.Prelude.Int.{◌-ℤ◌, pos, leb_ℤ, ltb_ℤ, ℤ}

pub record Limiter : Type 0 where
  pub window : ℤ
  pub reported : Option ℤ

-- `none` is the panic on a window that is not positive.
unfoldable pub new_limiter : ℤ → Option Limiter
new_limiter window =
    if leb_ℤ window (pos 0) then none else some (record { window = window; reported = none })

abbrev pub is_suppressed : ℤ → Option ℤ → ℤ → Bool
is_suppressed now none window = false
is_suppressed now (some reported) window = ltb_ℤ (now -ℤ reported) window

-- `Allow` at the clock's time: the answer and the limiter after it.
unfoldable pub allow : ℤ → Limiter → Bool × Limiter
allow now l =
    if is_suppressed now l.reported l.window
    then (false, l)
    else (true, record l { reported = some now })

-- The times of the calls that are allowed, of those of a run.
unfoldable pub allowed_times : Limiter → List ℤ → List ℤ
unfolding allow
allowed_times l [] = []
allowed_times l (now ∷ times) =
    let (answer, l') = allow now l in
    let rest = allowed_times l' times in if answer then now ∷ rest else rest
