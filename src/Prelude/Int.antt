-- ===== src/Prelude/Int.antt =====
-- Signed numbers, for the indices that go below zero. `negsuc n` is -(n + 1).
use Prim.Native.Nat.{ℕ, ◌-◌}
use roaring.Prelude.Tests.{leb, if◌then◌else◌}

pub data ℤ : Type 0 where
  pos : ℕ → ℤ
  negsuc : ℕ → ℤ

-- a - b, as an integer.
abbrev pub sub_ℕ : ℕ → ℕ → ℤ
sub_ℕ a b = if leb b a then pos (a - b) else negsuc (b - a - 1)
