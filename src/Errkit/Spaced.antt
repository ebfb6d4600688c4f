-- ===== src/Errkit/Spaced.antt =====
-- The reports of a limiter (services/errkit/limiter.go).
use gofin.Prelude.{
  if◌then◌else◌, Bool-cases, ◌≡◌, refl, subst, ◌⊎◌, inl, inr, Bool, true, false, Option, none, some,
  List, [], ◌∷◌, arith,
}
use gofin.Prelude.Int.{+ℤ_parts, ◌≤ℤ◌, ◌-ℤ◌, ◌<ℤ◌, ◌+ℤ◌, ltb_ℤ, ℤ, -ℤ_parts}
use gofin.Errkit.{allowed_times, allow, is_suppressed, ltb_ℤ, Limiter}

-- Each report comes at least a window after the one before it.
abbrev pub SpacedFrom : ℤ → Option ℤ → List ℤ → Type 0
SpacedFrom window previous [] = Unit
SpacedFrom window none (t ∷ ts) = SpacedFrom window (some t) ts
SpacedFrom window (some previous) (t ∷ ts) =
    (previous +ℤ window ≤ℤ t) × SpacedFrom window (some t) ts

-- The call comes less than a window after the last report.
abbrev pub IsEarly : Limiter → ℤ → Type 0
IsEarly l now = (r : ℤ) × (l.reported ≡ some r) × (now <ℤ r +ℤ l.window)

-- How a call is answered, and what it leaves.
abbrev pub Answers : Limiter → ℤ → Bool × Limiter → Type 0
Answers l now r =
    (IsEarly l now × (r.0 ≡ false) × (r.1 ≡ l))
    ⊎ ((¬ (IsEarly l now)) × (r.0 ≡ true) × (r.1.window ≡ l.window) × (r.1.reported ≡ some now))

early : (now r window : ℤ) → ltb_ℤ (now -ℤ r) window ≡ true → now <ℤ r +ℤ window
early now r window h = ground (arith, +ℤ_parts r window, -ℤ_parts now r)

late : (now r window : ℤ) → ltb_ℤ (now -ℤ r) window ≡ false → r +ℤ window ≤ℤ now
late now r window h = ground (arith, +ℤ_parts r window, -ℤ_parts now r)

not_early : (now r window : ℤ) → r +ℤ window ≤ℤ now → ¬ (now <ℤ r +ℤ window)
not_early now r window h k = omega arith

suppressed-IsEarly :
    (now : ℤ) (o : Option ℤ) (window : ℤ)
    → is_suppressed now o window ≡ true
    → (r : ℤ) × (o ≡ some r) × (now <ℤ r +ℤ window)
suppressed-IsEarly now none window h = cc
suppressed-IsEarly now (some r) window h = (r, refl, early now r window h)

Answers-of :
    (l : Limiter) (now : ℤ) (b : Bool)
    → is_suppressed now l.reported l.window ≡ b
    → Answers l now (if b then (false, l) else (true, record l { reported = some now }))
Answers-of l now true h = inl (suppressed-IsEarly now l.reported l.window h, refl, refl)
Answers-of l now false h = inr (
  λ (r, e, k).
      not_early now r l.window
        (late now r l.window (subst (λ o. is_suppressed now o l.window ≡ false) e h)) k,
  refl,
  refl,
  refl,
)

allow-Answers : (l : Limiter) (now : ℤ) → Answers l now (allow now l)
unfolding allow
allow-Answers l now = Answers-of l now (is_suppressed now l.reported l.window) refl

spaced_after :
    (now window : ℤ) (o : Option ℤ) (ts : List ℤ)
    → is_suppressed now o window ≡ false
    → SpacedFrom window (some now) ts
    → SpacedFrom window o (now ∷ ts)
spaced_after now window none ts h s = s
spaced_after now window (some r) ts h s = (late now r window h, s)

spaced : (times : List ℤ) (l : Limiter) → SpacedFrom l.window l.reported (allowed_times l times)
unfolding allowed_times allow
spaced [] l = tt
spaced (now ∷ times) l = elim (Bool-cases (is_suppressed now l.reported l.window)) [
  | inl e ↦ rw e (spaced times l)
  | inr e ↦ rw e (
      spaced_after now l.window l.reported (allowed_times (record l { reported = some now }) times)
        e (spaced times (record l { reported = some now })))
]

-- Whatever the clock's times, each report that a limiter allows comes at its last report's time plus
-- the window or later, also the first one if there was a report before; and a call is refused, leaving
-- the limiter as it was, if there was a last report and the call comes before its time plus the
-- window, and otherwise it is allowed and becomes the last report.
pub limiter-Spaced :
    (l : Limiter) (times : List ℤ) (now : ℤ)
    → SpacedFrom l.window l.reported (allowed_times l times) × Answers l now (allow now l)
limiter-Spaced l times now = (spaced times l, allow-Answers l now)
