-- ===== src/Prelude/Wrap.antt =====
-- Wrap-around is a congruence for addition.
use mathlib.Core.Path.{◌≡◌}
use native.Mathlib.Omega.{arith}
use gofin.Prelude.Int.{ℤ, pos, negsuc, ◌+ℤ◌, wrap64}

pub wrap64-add : (a b : ℤ) → wrap64 (wrap64 a +ℤ b) ≡ wrap64 (a +ℤ b)
unfolding wrap64 ◌+ℤ◌
wrap64-add (pos a) (pos b) = ground arith
wrap64-add (pos a) (negsuc b) = ground arith
wrap64-add (negsuc a) (pos b) = ground arith
wrap64-add (negsuc a) (negsuc b) = ground arith
