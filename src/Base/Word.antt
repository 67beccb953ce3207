-- ===== src/Base/Word.antt =====
-- Go's int64: every result is brought back into the range by two's complement.
use Prim.Native.Nat.{ℕ, ◌-◌, ◌%◌, ◌^◌, ◌≤◌, ◌<◌}
use mathlib.Core.Path.{◌≡◌}
use native.Mathlib.Omega.{arith}
use phi_chain.Base.Tests.{ltb, if◌then◌else◌}
use phi_chain.Base.Int.{ℤ, pos, negsuc, pos_part, neg_part, ◌+ℤ◌, ◌-ℤ◌, ◌≤ℤ◌}

-- The bit pattern of an integer, as a number below 2 ^ 64.
unfoldable pub bits64 : ℤ → ℕ
bits64 (pos n) = n % 2 ^ 64
bits64 (negsuc n) = 2 ^ 64 - 1 - n % 2 ^ 64

unfoldable pub int64 : ℤ → ℤ
unfolding bits64
int64 z = if ltb (bits64 z) (2 ^ 63) then pos (bits64 z) else negsuc (2 ^ 64 - 1 - bits64 z)

unfoldable pub add64 : ℤ → ℤ → ℤ
unfolding int64 ◌+ℤ◌
add64 a b = int64 (a +ℤ b)

unfoldable pub sub64 : ℤ → ℤ → ℤ
unfolding int64 ◌-ℤ◌
sub64 a b = int64 (a -ℤ b)

-- Within 2 ^ 62 of zero, so that the difference of two such values does not wrap.
abbrev pub IsNear : ℤ → Type 0
IsNear z = (pos_part z < 2 ^ 62) × (neg_part z ≤ 2 ^ 62)

pub int64-id : (z : ℤ) → pos_part z < 2 ^ 63 → neg_part z ≤ 2 ^ 63 → int64 z ≡ z
unfolding int64
int64-id (pos n) h k = ground arith
int64-id (negsuc n) h k = ground arith

sub_parts :
    (a b : ℤ) → IsNear a → IsNear b → (pos_part (a -ℤ b) < 2 ^ 63) × (neg_part (a -ℤ b) ≤ 2 ^ 63)
unfolding ◌-ℤ◌
sub_parts a b h k = ground arith

add_parts :
    (a b : ℤ) → IsNear a → IsNear b → (pos_part (a +ℤ b) < 2 ^ 63) × (neg_part (a +ℤ b) ≤ 2 ^ 63)
unfolding ◌+ℤ◌
add_parts a b h k = ground arith

pub sub64-near : (a b : ℤ) → IsNear a → IsNear b → sub64 a b ≡ a -ℤ b
unfolding sub64 int64
sub64-near a b h k = int64-id (a -ℤ b) (sub_parts a b h k).0 (sub_parts a b h k).1

pub add64-near : (a b : ℤ) → IsNear a → IsNear b → add64 a b ≡ a +ℤ b
unfolding add64 int64
add64-near a b h k = int64-id (a +ℤ b) (add_parts a b h k).0 (add_parts a b h k).1

plus_bounds :
    (a b : ℤ) (q : ℕ)
    → IsNear a
    → IsNear b
    → a ≤ℤ b
    → q ≤ pos_part (b -ℤ a)
    → (pos_part (a +ℤ pos q) < 2 ^ 63)
      × (neg_part (a +ℤ pos q) ≤ 2 ^ 63)
      × (a ≤ℤ a +ℤ pos q)
      × (a +ℤ pos q ≤ℤ b)
      × IsNear (a +ℤ pos q)
unfolding ◌+ℤ◌ ◌-ℤ◌
plus_bounds a b q h k o le = ground arith

-- A step of at most the distance to a later time does not wrap, and ends between the two.
pub add64-between :
    (a b : ℤ) (q : ℕ)
    → IsNear a
    → IsNear b
    → a ≤ℤ b
    → q ≤ pos_part (b -ℤ a)
    → (add64 a (pos q) ≡ a +ℤ pos q) × (a ≤ℤ a +ℤ pos q) × (a +ℤ pos q ≤ℤ b) × IsNear (a +ℤ pos q)
unfolding add64 int64
add64-between a b q h k o le =
    let p = plus_bounds a b q h k o le in (int64-id (a +ℤ pos q) p.0 p.1, p.2, p.3, p.4)
