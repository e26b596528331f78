-- ===== src/Cmdline/Help/Fits.antt =====
-- Texts whose lines are no wider than the help is meant to be.
use g_sierra.Common.{
  ℕ, suc, ◌+◌, ◌≤◌, ◌≡◌, ◌≢◌, refl, ◌∙◌, Bool, true, false, List, [], ◌∷◌, ◌++◌, length, All, leb,
  ◌==◌, if◌then◌else◌, arith,
}
use g_sierra.Cmdline.Help.{max_line_width}

-- No line of the text is wider than the help is meant to be; `used` columns of the first are taken.
unfoldable pub fits : ℕ → List ℕ → Bool
fits used [] = leb used max_line_width
fits used (c ∷ cs) =
    let next = fits (if c == b'\n' then 0 else used + 1) cs in
    if c == b'\n' then (if leb used max_line_width then next else false) else next

-- A text of one line.
abbrev pub IsLine : List ℕ → Type 0
IsLine = All (λ c. c ≢ b'\n')

pub fits-append :
    (used : ℕ) (s rest : List ℕ) → IsLine s → fits used (s ++ rest) ≡ fits (used + length s) rest
unfolding fits
fits-append used [] rest h = let same : used + 0 ≡ used = omega arith in rw same refl
fits-append used (c ∷ cs) rest h =
    let other : (c == b'\n') ≡ false = ground (arith, h.0) in
    let same : used + suc (length cs) ≡ used + 1 + length cs = omega arith in
    rw (other, same) (fits-append (used + 1) cs rest h.1)

pub fits_start : (s rest : List ℕ) → IsLine s → fits 0 (s ++ rest) ≡ fits (length s) rest
fits_start s rest h =
    let same : 0 + length s ≡ length s = omega arith in rw (← same) (fits-append 0 s rest h)

pub fits_newline : (used : ℕ) (rest : List ℕ) → used ≤ 100 → fits used (b'\n' ∷ rest) ≡ fits 0 rest
unfolding fits
fits_newline used rest h = let ends : leb used 100 ≡ true = ground arith in rw ends refl

-- A line with its end.
pub fits_line :
    (used : ℕ) (s rest : List ℕ)
    → IsLine s
    → used + length s ≤ 100
    → fits used (s ++ b'\n' ∷ rest) ≡ fits 0 rest
fits_line used s rest h w =
    fits-append used s (b'\n' ∷ rest) h ∙ fits_newline (used + length s) rest w

abbrev pub plain : List ℕ → Bool
plain [] = true
plain (c ∷ cs) = if c == b'\n' then false else plain cs

pub plain-IsLine : (s : List ℕ) → plain s ≡ true → IsLine s
plain-IsLine [] h = tt
plain-IsLine (c ∷ cs) h = (ground arith, plain-IsLine cs (ground arith))
