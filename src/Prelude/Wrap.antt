-- ===== src/Prelude/Wrap.antt =====
-- Sums that wrap at 64 bits.
use namespace_resizer.Prelude.Int.{ℤ, pos, negsuc, ◌+ℤ◌, wrap64}
use mathlib.Core.Path.{◌≡◌}
use native.Mathlib.Omega.{arith}

pub wrap64-wrap64_add : (a b : ℤ) → wrap64 (wrap64 a +ℤ b) ≡ wrap64 (a +ℤ b)
unfolding wrap64 ◌+ℤ◌
wrap64-wrap64_add (pos a) (pos b) = ground arith
wrap64-wrap64_add (pos a) (negsuc b) = ground arith
wrap64-wrap64_add (negsuc a) (pos b) = ground arith
wrap64-wrap64_add (negsuc a) (negsuc b) = ground arith

pub wrap64-wrap64 : (a : ℤ) → wrap64 (wrap64 a) ≡ wrap64 a
unfolding wrap64
wrap64-wrap64 (pos a) = ground arith
wrap64-wrap64 (negsuc a) = ground arith
