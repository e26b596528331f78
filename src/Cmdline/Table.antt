-- ===== src/Cmdline/Table.antt =====
-- cmdline.c: the table of options grows with every component that adds some.
pub mod Grow
use mathlib.Core.Option
use g_sierra.Common.{
  ℕ, zero, suc, ◌+◌, ◌*◌, ◌-◌, Bool, true, false, not, Option, none, some, List, [], ◌∷◌, ◌++◌, map,
  ltb, leb, if◌then◌else◌, length, take, drop, replicate, get_or, set, codes,
}
use g_sierra.Common.Int.{ℤ, pos, negsuc, eqb_ℤ}
use g_sierra.Cmdline.{ArgsStruct, OptionType, type_b, type_other, cmd_is_option}

-- A place of the array: what `realloc` gave and nothing wrote, an option, or `ARG_TABLE_ENDMARKER`.
pub data Place : Type 0 where
  unwritten : Place
  entry : ArgsStruct → Place
  end_marker : Place

pub record Table : Type 0 where
  pub args_struct : List Place
  pub used_args : ℕ
  pub args_aval : ℕ

abbrev pub args_alloc_chunk_size : ℕ
args_alloc_chunk_size = 20

abbrev pub growby : ℕ → ℕ
growby count = if ltb count args_alloc_chunk_size then args_alloc_chunk_size else count

-- `memcpy(&buffer[i], src, …)`; nothing when it would write past the end.
abbrev pub copy_to : ℕ → List Place → List Place → Option (List Place)
copy_to i src buffer =
    if leb (i + length src) (length buffer)
    then some (take i buffer ++ src ++ drop (i + length src) buffer)
    else none

abbrev pub enlarge : ℕ → Table → Table
enlarge count t = record t {
  args_struct = t.args_struct ++ replicate (growby count) unwritten;
  args_aval = t.args_aval + growby count;
}

unfoldable pub grow : ℕ → Table → Table
grow count t = if leb t.args_aval (t.used_args + count) then enlarge count t else t

-- `args` are the options before the end marker, which is copied too. The memory is given: without,
-- the process exits.
unfoldable pub native_add_command_line_opts : List ArgsStruct → Table → Option Table
unfolding grow
native_add_command_line_opts args t =
    let count = length args + 1 in
    let t' = grow count t in
    Option.map (λ buffer. record t' { args_struct = buffer; used_args = t'.used_args + count - 1 })
      (copy_to t'.used_args (map entry args ++ end_marker ∷ []) t'.args_struct)

-- `native_cleanup_cmd_line` gives the array back, but not its sizes.
unfoldable pub native_cleanup_cmd_line : Table → Table
native_cleanup_cmd_line t = record t { args_struct = [] }
