-- ===== src/Cmdline/Help/Columns.antt =====
-- The help stays within its line width.
use g_sierra.Common.{
  All-append, All-parts, All-take, All-replicate, ℕ, ◌+◌, ◌-◌, ◌≤◌, ◌≡◌, ◌≢◌, refl, ◌∙◌, true,
  Bool-cases, not, if_either, inl, inr, some, List, [], ◌∷◌, ◌++◌, append_assoc, length, codes,
  replicate, All, ltb, arith,
}
use g_sierra.Cmdline.{ArgsStruct}
use g_sierra.Cmdline.Help.{
  switch_text, bracket, closing, max_stringy_len, pad_right, left_column, stringy, print_switches,
  cmd_print_switches_help, print_options, print_option, cmd_print_long_help, help_switch,
  help_descr, help_note, is_type_l,
}
use g_sierra.Cmdline.Help.Fits.{
  fits, IsLine, fits-append, fits_start, fits_newline, fits_line, plain-IsLine,
}
use g_sierra.Cmdline.Help.Syntax.{length-stringy, stringy_lem, usage}
use g_sierra.Cmdline.Help.Wrap.{joined, indented, print_option_lem}

-- The texts of an option have no line ends of their own.
pub record IsPlain (a : ArgsStruct) : Type 0 where
  pub plain_option : IsLine a.option
  pub plain_name : IsLine a.name
  pub plain_descript : IsLine a.descript

switch_text-IsLine : (a : ArgsStruct) → IsPlain a → IsLine (switch_text a)
unfolding switch_text
switch_text-IsLine a p =
    let dash : b'-' ≢ b'\n' = omega arith in
    let named = λ (open_ close : List ℕ) (o : IsLine open_) (c : IsLine close).
      All-append _ (a.option ++ open_ ++ a.name) close
        (All-append _ (a.option ++ open_) a.name (All-append _ a.option open_ p.plain_option o)
          p.plain_name)
        c in
    if_either IsLine a.is_switch _ _ (dash, p.plain_option)
      (if_either IsLine (not (is_type_l a.type)) _ _
        (
          dash,
          named (codes "=<") (codes ">") (plain-IsLine (codes "=<") refl)
              (plain-IsLine (codes ">") refl),
        )
        (
          dash,
          named (codes " <") (codes ">...") (plain-IsLine (codes " <") refl)
              (plain-IsLine (codes ">...") refl),
        ))

stringy-IsLine : (a : ArgsStruct) → IsPlain a → IsLine (stringy a)
unfolding bracket closing
stringy-IsLine a p = rw (stringy_lem a) (
    All-take _ (max_stringy_len - 1) (usage a) (
      All-append _ (bracket a) (switch_text a ++ closing a)
        (if_either IsLine (not a.is_mandatory) _ _ (plain-IsLine (codes "[") refl) tt)
        (All-append _ (switch_text a) (closing a) (switch_text-IsLine a p) (
          if_either IsLine (not a.is_mandatory) _ _ (plain-IsLine (codes "] ") refl)
            (plain-IsLine (codes " ") refl)))))

left_column-IsLine : (s : List ℕ) → IsLine s → IsLine (left_column s)
unfolding left_column pad_right
left_column-IsLine s h = (
  omega arith,
  All-append _ (pad_right 29 s) (codes ":")
      (All-append _ s (replicate (29 - length s) b' ') h
        (All-replicate _ (29 - length s) b' ' (omega arith)))
      (plain-IsLine (codes ":") refl),
)

print_switches-fits :
    (used : ℕ) (table : List ArgsStruct) (rest : List ℕ)
    → used ≤ 100
    → All IsPlain table
    → fits used (print_switches used table ++ b'\n' ∷ rest) ≡ fits 0 rest
unfolding print_switches
print_switches-fits used [] rest h p = fits_newline used rest h
print_switches-fits used (a ∷ others) rest h p =
    let text = stringy a in
    let short = length-stringy a in
    elim (Bool-cases (ltb 100 (used + length text))) [
      | inl wraps ↦
          let next = print_switches (length text) others in
          rw (wraps, append_assoc)
            (fits_newline used (text ++ (next ++ b'\n' ∷ rest)) h
              ∙ fits_start text (next ++ b'\n' ∷ rest) (stringy-IsLine a p.0)
              ∙ print_switches-fits (length text) others rest (omega arith) p.1)
      | inr stays ↦
          let next = print_switches (used + length text) others in
          rw (stays, append_assoc)
            (fits-append used text (next ++ b'\n' ∷ rest) (stringy-IsLine a p.0)
              ∙ print_switches-fits (used + length text) others rest (ground arith) p.1)
    ]

indented-fits :
    (lines : List (List ℕ)) (rest : List ℕ)
    → IsLine (joined lines)
    → All (λ l. length l ≤ 70) lines
    → fits 0 (indented lines ++ rest) ≡ fits 0 rest
indented-fits [] rest p w = refl
indented-fits (l ∷ ls) rest p w =
    let (p_l, p_ls) = All-parts _ l (joined ls) p in
    rw (append_assoc, append_assoc)
      (fits_start (replicate 30 b' ') (l ++ b'\n' ∷ (indented ls ++ rest))
          (plain-IsLine (replicate 30 b' ') refl)
        ∙ fits_line 30 l (indented ls ++ rest) p_l (omega (arith, w.0))
        ∙ indented-fits ls rest p_ls w.1)

print_option-fits :
    (a : ArgsStruct)
    → IsPlain a
    → (text : List ℕ) × (print_option a ≡ some text)
      × ((rest : List ℕ) → fits 0 (text ++ rest) ≡ fits 0 rest)
print_option-fits a p =
    let (line, lines, prints, wrapped, narrow) = print_option_lem a in
    let left = left_column (stringy a) in
    let all = rw (← wrapped.text_kept) at p.plain_descript in
    let (p_line, p_lines) = All-parts _ line (joined lines) all in
    (
      left ++ (line ++ b'\n' ∷ indented lines),
      prints,
      λ rest.
          rw (append_assoc, append_assoc)
            (fits_start left (line ++ b'\n' ∷ (indented lines ++ rest))
                (left_column-IsLine (stringy a) (stringy-IsLine a p))
              ∙ fits_line (length left) line (indented lines ++ rest) p_line narrow
              ∙ indented-fits lines rest p_lines wrapped.width_kept.1),
    )

print_options-fits :
    (table : List ArgsStruct)
    → All IsPlain table
    → (text : List ℕ) × (print_options table ≡ some text)
      × ((rest : List ℕ) → fits 0 (text ++ rest) ≡ fits 0 rest)
unfolding print_options
print_options-fits [] p = ([], refl, λ rest. refl)
print_options-fits (a ∷ others) p =
    let (text, prints, narrow) = print_option-fits a p.0 in
    let (more, prints_more, narrow_more) = print_options-fits others p.1 in
    (
      text ++ more,
      rw (prints, prints_more) refl,
      λ rest. rw append_assoc (narrow (more ++ rest) ∙ narrow_more rest),
    )

switches_help-fits :
    (table : List ArgsStruct) (rest : List ℕ)
    → All IsPlain table
    → fits 0 (cmd_print_switches_help table ++ rest) ≡ fits 0 rest
unfolding cmd_print_switches_help
switches_help-fits table rest p = rw (append_assoc (print_switches 25 table)) (
    fits_start (help_switch ++ codes " ") (print_switches 25 table ++ b'\n' ∷ rest)
      (plain-IsLine (help_switch ++ codes " ") refl)
    ∙ print_switches-fits 25 table rest (omega arith) p)

-- The long help of the program is printed to its end, and none of its lines is wider than 100 columns:
-- for any table of options whose texts have no line ends of their own, however long they are.
pub cmd_print_long_help-fits :
    (table : List ArgsStruct)
    → All IsPlain table
    → (text : List ℕ) × (cmd_print_long_help table ≡ some text) × (fits 0 text ≡ true)
unfolding cmd_print_long_help fits
cmd_print_long_help-fits table p =
    let (text, prints, narrow) = print_options-fits table p in
    let title = left_column help_switch ++ help_descr in
    let after = text ++ b'\n' ∷ help_note in
    (
      cmd_print_switches_help table ++ (b'\n' ∷ (title ++ b'\n' ∷ after)),
      rw prints refl,
      switches_help-fits table (b'\n' ∷ (title ++ b'\n' ∷ after)) p
          ∙ fits_newline 0 (title ++ b'\n' ∷ after) (omega arith)
          ∙ fits_line 0 title after (plain-IsLine title refl) (omega arith)
          ∙ narrow (b'\n' ∷ help_note)
          ∙ refl,
    )
