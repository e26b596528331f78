-- ===== src/Common/CString.antt =====
-- C strings: literals, and strings inside buffers, the characters before the first zero.
use Prim.Native.Nat.{ℕ, zero, suc, ◌<◌}
use Prim.Native.Char.{code}
use Prim.Native.String.{String}
use mathlib.Core.Path.{◌≡◌, refl, ap}
use mathlib.Core.List.{List, [], ◌∷◌, ◌++◌}
use native.Mathlib.Omega.{arith}
use g_sierra.Common.Tests.{◌==◌, if◌then◌else◌}
use g_sierra.Common.Lists.{length, take, set, All}

-- The bytes of a string literal.
abbrev pub codes : String → List ℕ
codes String.[] = []
codes (String.◌∷◌ c s) = code c ∷ codes s

abbrev pub cstr : List ℕ → List ℕ
cstr [] = []
cstr (x ∷ xs) = if x == 0 then [] else x ∷ cstr xs

-- A zero written behind non-zero characters ends the string there.
pub cstr-set :
    (xs : List ℕ) (i : ℕ)
    → i < length xs
    → All (λ x. 0 < x) (take i xs)
    → cstr (set xs i 0) ≡ take i xs
cstr-set [] i h p = absurd (omega arith)
cstr-set (x ∷ xs) zero h p = refl
cstr-set (x ∷ xs) (suc i) h p = ground (arith, cstr-set xs i (omega arith) p.1)

pub take-set-suc {ℓ} :
    {A : Type ℓ} (xs : List A) (i : ℕ) (v : A)
    → i < length xs
    → take (suc i) (set xs i v) ≡ take i xs ++ v ∷ []
take-set-suc [] i v h = absurd (omega arith)
take-set-suc (x ∷ xs) zero v h = refl
take-set-suc (x ∷ xs) (suc i) v h = ap (◌∷◌ x) (take-set-suc xs i v (omega arith))

pub All-snoc {ℓ κ} :
    {A : Type ℓ} (P : A → Type κ) (xs : List A) (v : A) → All P xs → P v → All P (xs ++ v ∷ [])
All-snoc P [] v h p = (p, tt)
All-snoc P (x ∷ xs) v h p = (h.0, All-snoc P xs v h.1 p)
