-- ===== src/Cmdline/Help/Wrap.antt =====
-- The description of an option, in lines of the right column.
use g_sierra.Common.{
  take-append-drop_rest, ℕ, zero, suc, ◌+◌, ◌-◌, ◌≤◌, ◌≡◌, refl, ap, true, some, List, [], ◌∷◌,
  ◌++◌, length, length-append, length-replicate, codes, length-take, length-drop, take, drop,
  replicate, All, leb, arith,
}
use mathlib.Core.Option
use Prim.Native.Nat.{max}
use g_sierra.Cmdline.{ArgsStruct}
use g_sierra.Cmdline.Help.{
  max_line_width, long_help_align, cut, print_rest, left_column, pad_right, stringy, print_option,
}
use g_sierra.Cmdline.Help.Syntax.{length-stringy}

-- The lines one after the other: their text, and how they stand in the right column.
abbrev pub joined : List (List ℕ) → List ℕ
joined [] = []
joined (l ∷ ls) = l ++ joined ls

abbrev pub indented : List (List ℕ) → List ℕ
indented [] = []
indented (l ∷ ls) = replicate long_help_align b' ' ++ (l ++ b'\n' ∷ indented ls)

-- The lines hold this text and none is wider than that.
pub record IsWrapped (width : ℕ) (text : List ℕ) (lines : List (List ℕ)) : Type 0 where
  pub text_kept : joined lines ≡ text
  pub width_kept : All (λ l. length l ≤ width) lines

print_rest_lem :
    (fuel : ℕ) (s : List ℕ)
    → length s ≤ fuel
    → (lines : List (List ℕ)) × (print_rest fuel s ≡ some (indented lines)) × IsWrapped 70 s lines
unfolding print_rest cut
print_rest_lem fuel [] h = ([], refl, record { text_kept = refl; width_kept = tt })
print_rest_lem zero (c ∷ cs) h = absurd (omega arith)
print_rest_lem (suc fuel) (c ∷ cs) h =
    let line = take 70 (c ∷ cs) in
    let measured = length-take 70 (c ∷ cs) in
    let (lines, prints, wrapped) =
      print_rest_lem fuel (drop (length line) (c ∷ cs))
        (omega (arith, length-drop (length line) (c ∷ cs), measured)) in
    (
      line ∷ lines,
      ap (Option.map _) prints,
      record {
        text_kept = rw wrapped.text_kept (take-append-drop_rest 70 (c ∷ cs));
        width_kept = (omega (arith, measured), wrapped.width_kept);
      },
    )

pub length-left_column :
    (s : List ℕ) → length (left_column s) ≡ 2 + max (long_help_align - 1) (length s)
unfolding left_column pad_right
length-left_column s = omega (
  arith,
  length-append (s ++ replicate (29 - length s) b' ') (codes ":"),
  length-append s (replicate (29 - length s) b' '),
  length-replicate {A = ℕ} (29 - length s) b' ',
)

-- The help of an option ends, for a description of any length: it is the option's syntax and the whole
-- description, cut into a line behind the syntax and lines of at most 70 characters in the right
-- column; the first line of it ends at column 100 at the latest.
pub print_option_lem :
    (a : ArgsStruct)
    → (line : List ℕ) × (lines : List (List ℕ)) × (print_option a
        ≡ some (left_column (stringy a) ++ (line ++ b'\n' ∷ indented lines)))
      × IsWrapped 70 a.descript (line ∷ lines)
      × (length (left_column (stringy a)) + length line ≤ max_line_width)
unfolding print_option cut
print_option_lem a =
    let left = left_column (stringy a) in
    let room = 100 - length left in
    let line = take room a.descript in
    let measured = length-take room a.descript in
    let wide = length-left_column (stringy a) in
    let short = length-stringy a in
    let fits : leb (length left) 100 ≡ true = ground arith in
    let (lines, prints, wrapped) =
      print_rest_lem (length a.descript) (drop (length line) a.descript)
        (omega (arith, length-drop (length line) a.descript)) in
    (
      line,
      lines,
      rw fits (ap (Option.map _) prints),
      record {
        text_kept = rw wrapped.text_kept (take-append-drop_rest room a.descript);
        width_kept = (omega (arith, measured), wrapped.width_kept);
      },
      omega (arith, measured),
    )
