-- ===== src/Cmdline/Table/Grow.antt =====
-- The array of options never overflows, and holds all options in the order they were added.
use g_sierra.Common.{
  ℕ, zero, suc, ◌+◌, ◌-◌, ◌≤◌, ◌≡◌, refl, ◌∙◌, ap, Bool, true, false, some, List, [], ◌∷◌, ◌++◌,
  map, append_assoc, leb, if◌then◌else◌, length, length-append, length-map, length-replicate,
  length-drop, take, drop, replicate, arith,
}
use mathlib.Core.Option
use g_sierra.Cmdline.{ArgsStruct}
use g_sierra.Cmdline.Table.{
  Place, unwritten, entry, end_marker, Table, growby, copy_to, enlarge, grow,
  native_add_command_line_opts,
}

-- The table holds the options `os`: they stand at its start, and an end marker behind them unless
-- nothing was added yet.
pub record Holds (t : Table) (os : List ArgsStruct) : Type 0 where
  pub used : t.used_args ≡ length os
  pub size : t.args_aval ≡ length t.args_struct
  pub entries : take t.used_args t.args_struct ≡ map entry os
  pub fits : t.used_args ≤ t.args_aval

take-all-append : {A : Type 0} (xs ys : List A) → take (length xs) (xs ++ ys) ≡ xs
take-all-append [] ys = refl
take-all-append (x ∷ xs) ys = ap (◌∷◌ x) (take-all-append xs ys)

take_one_past :
    {A : Type 0} (xs : List A) (y : A) (ys : List A)
    → take (suc (length xs)) (xs ++ y ∷ ys) ≡ xs ++ y ∷ []
take_one_past [] y ys = refl
take_one_past (x ∷ xs) y ys = ap (◌∷◌ x) (take_one_past xs y ys)

take-append : {A : Type 0} (n : ℕ) (xs ys : List A) → n ≤ length xs → take n (xs ++ ys) ≡ take n xs
take-append zero xs ys h = refl
take-append (suc n) [] ys h = absurd (omega arith)
take-append (suc n) (x ∷ xs) ys h = ap (◌∷◌ x) (take-append n xs ys (omega arith))

enlarge-Holds :
    (count : ℕ) (t : Table) (os : List ArgsStruct) → Holds t os → Holds (enlarge count t) os
enlarge-Holds count t os h = record {
  used = h.used;
  size = omega (
    arith,
    h.size,
    length-append t.args_struct (replicate (growby count) unwritten),
    length-replicate (growby count) unwritten,
  );
  entries =
      take-append t.used_args t.args_struct (replicate (growby count) unwritten)
        (omega (arith, h.fits, h.size))
      ∙ h.entries;
  fits = omega (arith, h.fits);
}

-- After the growth the new options and the marker fit.
grow-Holds :
    (count : ℕ) (t : Table) (os : List ArgsStruct)
    → Holds t os
    → (b : Bool) → leb t.args_aval (t.used_args + count) ≡ b
    → (let t' = if b then enlarge count t else t in
        Holds t' os × (t'.used_args + count ≤ t'.args_aval))
grow-Holds count t os h true e = (enlarge-Holds count t os h, ground (arith, h.fits))
grow-Holds count t os h false e = (h, ground arith)

copied :
    (args os : List ArgsStruct) (rest : List Place)
    → map entry os ++ (map entry args ++ end_marker ∷ []) ++ rest
      ≡ map entry (os ++ args) ++ end_marker ∷ rest
copied args [] rest = append_assoc (map entry args) (end_marker ∷ []) rest
copied args (o ∷ os) rest = ap (◌∷◌ (entry o)) (copied args os rest)

copy_fits :
    (i : ℕ) (src buffer : List Place)
    → i + length src ≤ length buffer
    → copy_to i src buffer ≡ some (take i buffer ++ src ++ drop (i + length src) buffer)
copy_fits i src buffer h = ground arith

-- What stands in the table when `args` were added to one that held `os`.
added :
    (args os : List ArgsStruct) (t : Table)
    → Holds t os
    → t.used_args + (length args + 1) ≤ t.args_aval
    → (t' : Table) × (Option.map
          (λ buffer. record t {
            args_struct = buffer;
            used_args = t.used_args + (length args + 1) - 1;
          })
          (copy_to t.used_args (map entry args ++ end_marker ∷ []) t.args_struct)
        ≡ some t')
      × Holds t' (os ++ args)
      × (take (suc t'.used_args) t'.args_struct ≡ map entry (os ++ args) ++ end_marker ∷ [])
added args os t h room =
    let src = map entry args ++ end_marker ∷ [] in
    let rest = drop (t.used_args + length src) t.args_struct in
    let size_src : length src ≡ length args + 1 =
      length-append (map entry args) (end_marker ∷ []) ∙ ap (λ n. n + 1) (length-map args entry) in
    let buffer = map entry (os ++ args) ++ end_marker ∷ rest in
    let written : take t.used_args t.args_struct ++ src ++ rest ≡ buffer =
      ap (λ xs. xs ++ src ++ rest) h.entries ∙ copied args os rest in
    let size_new : length (map entry (os ++ args)) ≡ t.used_args + (length args + 1) - 1 =
      omega (arith, length-map (os ++ args) entry, length-append os args, h.used) in
    (
      record t { args_struct = buffer; used_args = t.used_args + (length args + 1) - 1 },
      ap (Option.map _) (
          copy_fits t.used_args src t.args_struct (omega (arith, size_src, h.size))
          ∙ ap some written),
      record {
        used = omega (arith, length-append os args, h.used);
        size = omega (
          arith,
          h.size,
          length-append (map entry (os ++ args)) (end_marker ∷ rest),
          length-drop (t.used_args + length src) t.args_struct,
          size_src,
          size_new,
        );
        entries = rw (← size_new) (take-all-append (map entry (os ++ args)) (end_marker ∷ rest));
        fits = omega (arith);
      },
      rw (← size_new) (take_one_past (map entry (os ++ args)) end_marker rest),
    )

-- Adding options never writes past the end of the array, and the table then holds the options from
-- before, the new ones behind them, and the end marker right behind these.
pub native_add_command_line_opts-Holds :
    (args os : List ArgsStruct) (t : Table)
    → Holds t os
    → (t' : Table) × (native_add_command_line_opts args t ≡ some t')
      × Holds t' (os ++ args)
      × (take (suc t'.used_args) t'.args_struct ≡ map entry (os ++ args) ++ end_marker ∷ [])
unfolding native_add_command_line_opts grow
native_add_command_line_opts-Holds args os t h =
    let (grown, room) = grow-Holds (length args + 1) t os h _ refl in
    added args os (grow (length args + 1) t) grown (omega (arith, room))
