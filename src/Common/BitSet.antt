-- ===== src/Common/BitSet.antt =====
-- A `uint64_t` that is used as a set of interrupts: its bits, the lowest first.
use Prim.Native.Nat.{ℕ, zero, suc}
use mathlib.Core.Bool.{Bool, true, false, not, ◌&&◌, ◌||◌}
use mathlib.Core.List.{List, [], ◌∷◌}
use g_sierra.Common.Tests.{if◌then◌else◌}
use g_sierra.Common.Lists.{replicate, get_or, set}

abbrev pub Bits : Type 0
Bits = List Bool

abbrev pub no_bits : Bits
no_bits = replicate 64 false

-- `x & ((uint64_t)1 << i)`, as a condition
abbrev pub bit : Bits → ℕ → Bool
bit x i = get_or x i false

-- `x |= (uint64_t)1 << i`
abbrev pub set_bit : Bits → ℕ → Bits
set_bit x i = set x i true

-- `x &= ~((uint64_t)1 << i)`
abbrev pub clear_bit : Bits → ℕ → Bits
clear_bit x i = set x i false

-- `x != 0`
abbrev pub any_bit : Bits → Bool
any_bit [] = false
any_bit (b ∷ bs) = b || any_bit bs

-- `x & ~y`
abbrev pub and_not : Bits → Bits → Bits
and_not [] ys = []
and_not (x ∷ xs) [] = x ∷ xs
and_not (x ∷ xs) (y ∷ ys) = (x && not y) ∷ and_not xs ys

-- The bits from index `i` on.
abbrev pub bits_from : ℕ → Bits → Bits
bits_from zero xs = xs
bits_from (suc i) [] = []
bits_from (suc i) (x ∷ xs) = bits_from i xs

-- `find_lsb_set(x) - 1` for a number that is not 0: the index of the lowest bit that is set.
abbrev pub lowest_bit : Bits → ℕ
lowest_bit [] = 0
lowest_bit (b ∷ bs) = let rest = lowest_bit bs in if b then 0 else suc rest
