-- ===== src/Conf/Value.antt =====
-- The conversions of single values in src/confconv.c. `strtol` and its kin are arguments.
pub mod Redir
use Prim.Native.Nat.{bit_or}
use crinit.Base.{
  ℕ, ◌+◌, ◌-◌, ◌%◌, ◌^◌, Bool, true, false, ◌&&◌, ◌||◌, List, [], ◌∷◌, Option, none, some, ◌==◌,
  if◌then◌else◌, leb, ltb, length,
}
use crinit.Base.Str.{Str, str_eq, codes}
use crinit.Base.Int.{ℤ, pos, negsuc}
use crinit.Task.{IoRedir}
use crinit.Conf.StrArr.{Conv, good, bad, on_conv, Mem, part, conv_to_str_arr}

-- What `strtol`, `strtoul` and their kin give: the value, how many bytes are before `endptr`, and
-- whether `errno` is set.
pub record StrTo (A : Type 0) : Type 0 where
  pub value : A
  pub consumed : ℕ
  pub errno : Bool

abbrev to_lower : ℕ → ℕ
to_lower c = if leb b'A' c && leb c b'Z' then c + 32 else c

-- `strcasecmp(a, b) == 0` in the POSIX locale
pub case_eq : Str → Str → Bool
case_eq [] [] = true
case_eq [] (y ∷ b) = false
case_eq (x ∷ a) [] = false
case_eq (x ∷ a) (y ∷ b) = to_lower x == to_lower y && case_eq a b

-- `crinitConfConvToBool`
unfoldable pub conv_to_bool : Str → Option Bool
unfolding case_eq
conv_to_bool val =
    if case_eq val (codes "YES")
    then some true
    else if case_eq val (codes "NO")
    then some false
    else none

-- `crinitConfConvToIntegerFnBody`: the whole text has to be a number.
unfoldable pub conv_to_integer : {A : Type 0} → (Str → StrTo A) → Str → Option A
conv_to_integer strto val =
    if length val == 0
    then none
    else if (strto val).errno
    then none
    else if (strto val).consumed == length val
    then some (strto val).value
    else none

-- The conversions of a `long` to an `int` and of an `unsigned long` to an `unsigned int`
unfoldable pub to_int : ℤ → ℤ
to_int (pos n) =
    if ltb (n % 2 ^ 32) (2 ^ 31) then pos (n % 2 ^ 32) else negsuc (2 ^ 32 - 1 - n % 2 ^ 32)
to_int (negsuc n) =
    if ltb (n % 2 ^ 32) (2 ^ 31) then negsuc (n % 2 ^ 32) else pos (2 ^ 32 - 1 - n % 2 ^ 32)

abbrev pub to_unsigned : ℕ → ℕ
to_unsigned n = n % 2 ^ 32

abbrev map_option : {A B : Type 0} → (A → B) → Option A → Option B
map_option f none = none
map_option f (some a) = some (f a)

-- `crinitConfConvToIntegerI` and `crinitConfConvToIntegerUI`, which do not look at the range
unfoldable pub conv_to_integer_i : (Str → StrTo ℤ) → Str → Option ℤ
unfolding conv_to_integer to_int
conv_to_integer_i strtol val = map_option to_int (conv_to_integer strtol val)

unfoldable pub conv_to_integer_ui : (Str → StrTo ℕ) → Str → Option ℕ
unfolding conv_to_integer
conv_to_integer_ui strtoul val = map_option to_unsigned (conv_to_integer strtoul val)

-- The descriptors of the standard streams, by their names in a configuration
abbrev pub stdin : ℤ
stdin = pos 0

abbrev pub no_fd : ℤ
no_fd = negsuc 0

unfoldable pub std_fd : Str → Option ℤ
std_fd s =
    if str_eq s (codes "STDOUT")
    then some (pos 1)
    else if str_eq s (codes "STDERR")
    then some (pos 2)
    else if str_eq s (codes "STDIN")
    then some stdin
    else none

-- `crinitIsAbsPath`
abbrev pub is_abs_path : Str → Bool
is_abs_path [] = false
is_abs_path (c ∷ s) = c == b'/'

-- `O_CREAT`, `O_TRUNC`, `O_APPEND` and `O_WRONLY` of Linux, those with O_CREAT first
abbrev pub o_truncate : ℕ
o_truncate = 576

abbrev pub o_append : ℕ
o_append = 1088

abbrev pub o_wronly : ℕ
o_wronly = 1

-- The third parameter: the flags, and whether the file is a pipe
unfoldable pub redir_kind : List Str → Option (ℕ × Bool)
redir_kind [] = some (o_truncate, false)
redir_kind (s ∷ opts) =
    if str_eq s (codes "TRUNCATE")
    then some (o_truncate, false)
    else if str_eq s (codes "APPEND")
    then some (o_append, false)
    else if str_eq s (codes "PIPE")
    then some (0, true)
    else none

-- The fourth parameter: the mode, of which 0 is taken for an error if `errno` is set, be it by an
-- earlier call.
unfoldable pub mode_of : StrTo ℕ → Bool → Option ℕ
mode_of r stale =
    if to_unsigned r.value == 0 && ((r.errno || stale) || r.consumed == 0)
    then none
    else if ltb 511 (to_unsigned r.value)
    then none
    else some (to_unsigned r.value)

unfoldable pub redir_mode : (Str → StrTo ℕ) → Bool → List Str → Option ℕ
unfolding mode_of
redir_mode strtoul stale (kind ∷ mode ∷ opts) = mode_of (strtoul mode) stale
redir_mode strtoul stale _ = some 420

abbrev pub is_stdin : ℤ → Bool
is_stdin (pos n) = n == 0
is_stdin (negsuc n) = false

-- The redirection to a file
unfoldable pub file_redir : ℤ → Str → Option (ℕ × Bool) → Option ℕ → Conv IoRedir
file_redir fd path none mode = bad
file_redir fd path (some kind) none = bad
file_redir fd path (some kind) (some mode) = good (record {
  new_fd = fd;
  old_fd = no_fd;
  path = some path;
  oflags = if is_stdin fd then 0 else bit_or kind.0 o_wronly;
  mode = mode;
  fifo = kind.1;
})

-- The second parameter: a standard stream or a file
unfoldable pub redir_target :
    Mem → (Str → StrTo ℕ) → Bool → ℤ → Option ℤ → Str → List Str → Conv IoRedir
unfolding file_redir
redir_target mem strtoul stale fd (some old) to opts = good (record {
  new_fd = fd;
  old_fd = old;
  path = none;
  oflags = o_truncate;
  mode = 420;
  fifo = false;
})
redir_target mem strtoul stale fd none to opts =
    if is_abs_path to
    then if mem (1 ∷ [])
      then file_redir fd to (redir_kind opts) (redir_mode strtoul stale opts)
      else bad
    else bad

unfoldable pub redir_from : Mem → (Str → StrTo ℕ) → Bool → Option ℤ → Str → List Str → Conv IoRedir
unfolding redir_target
redir_from mem strtoul stale none to opts = bad
redir_from mem strtoul stale (some fd) to opts =
    redir_target mem strtoul stale fd (std_fd to) to opts

-- At least two parameters are needed.
unfoldable pub redir_of : Mem → (Str → StrTo ℕ) → Bool → List Str → Conv IoRedir
unfolding redir_from
redir_of mem strtoul stale (from ∷ to ∷ opts) = redir_from mem strtoul stale (std_fd from) to opts
redir_of mem strtoul stale _ = bad

-- `crinitConfConvToIoRedir`; `stale` says that `errno` is set by an earlier call, and `strtoul` reads
-- octal digits.
unfoldable pub conv_to_io_redir : Mem → (Str → StrTo ℕ) → Bool → Str → Conv IoRedir
unfolding redir_of
conv_to_io_redir mem strtoul stale val =
    on_conv (conv_to_str_arr (part mem 0) true val) (redir_of mem strtoul stale)
