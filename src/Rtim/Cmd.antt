-- ===== src/Rtim/Cmd.antt =====
-- src/rtimcmd.c: the reading, printing and building of a command.
pub mod Parse
pub mod Message
pub mod Build
use crinit.Base.{
  ℕ, zero, suc, ◌+◌, ◌≡◌, Bool, true, false, not, ◌&&◌, ◌==◌, if◌then◌else◌, Option, none, some,
  List, [], ◌∷◌, ◌++◌, length,
}
use crinit.Base.Str.{Str}
use crinit.Rtim.{RtimOp, delimiter, rtim_op_get_by_op_str, op_str_get_by_rtim_op}
use crinit.Rtim.Fields.{field}

-- `crinitRtimCmd_t`. The list is the first `argc` elements of the array `args`.
pub record RtimCmd : Type 0 where
  pub op : RtimOp
  pub args : List Str

-- `uninitialised`: an element of the array of arguments has not been set.
pub data Parsed : Type 0 where
  refused : Parsed
  uninitialised : Parsed
  parsed : RtimCmd → Parsed

-- The first loop of `crinitParseRtimCmd`
unfoldable pub skip_op : Str → Str
skip_op [] = []
skip_op (x ∷ s) = if x == delimiter then x ∷ s else skip_op s

-- The second one, which leaves one delimiter of several
unfoldable pub skip_repeated : Str → Str
skip_repeated [] = []
skip_repeated (x ∷ []) = x ∷ []
skip_repeated (x ∷ y ∷ s) =
    let rest = skip_repeated (y ∷ s) in if y == delimiter then rest else x ∷ y ∷ s

-- The byte is not a delimiter and not the end.
abbrev pub starts_arg : Str → Bool
starts_arg [] = false
starts_arg (y ∷ s) = not (y == delimiter)

-- The third one
unfoldable pub count_args : Str → ℕ
count_args [] = 0
count_args (x ∷ s) = (if x == delimiter && starts_arg s then 1 else 0) + count_args s

-- `argStart + 1`
abbrev pub next_byte : Str → Str
next_byte [] = []
next_byte (x ∷ s) = s

-- What is left behind the first delimiter
abbrev pub after : Str → Str
after [] = []
after (x ∷ s) = let rest = after s in if x == delimiter then s else rest

-- `strtok_r` with the delimiter: the token, and where it goes on
unfoldable pub strtok : Str → Option (Str × Str)
strtok [] = none
strtok (x ∷ s) = let rest = strtok s in if x == delimiter then rest else some (x ∷ field s, after s)

abbrev pub keep_token : Str → Option (List Str) → Option (List Str)
keep_token t none = none
keep_token t (some ts) = some (t ∷ ts)

-- The last loop of `crinitParseRtimCmd`, which sets `argCount` elements
unfoldable pub tokens : ℕ → Str → Option (List Str)
unfolding strtok
tokens zero s = some []
tokens (suc n) s = elim (strtok s) [ none ↦ none | some p ↦ keep_token p.0 (tokens n p.1) ]

abbrev pub of_tokens : RtimOp → Option (List Str) → Parsed
of_tokens op none = uninitialised
of_tokens op (some ts) = parsed (record { op = op; args = ts })

-- From the array's size on
unfoldable pub parse_args : (ℕ → Bool) → RtimOp → Str → Parsed
unfolding count_args tokens
parse_args alloc op start =
    let args : Option (List Str) = tokens (count_args start) (next_byte start) in
    if not (alloc 0)
    then refused
    else if count_args start == 0
    then parsed (record { op = op; args = [] })
    else if not (alloc 1)
    then refused
    else of_tokens op args

-- `crinitParseRtimCmd`; `alloc` says whether its n-th allocation succeeds.
unfoldable pub parse_rtim_cmd : (ℕ → Bool) → Str → Parsed
unfolding parse_args skip_op skip_repeated
parse_rtim_cmd alloc s = elim (rtim_op_get_by_op_str s) [
  | none ↦ refused
  | some op ↦ parse_args alloc op (skip_repeated (skip_op s))
]

-- The loops of `crinitRtimCmdToMsgStr` over the arguments: the size and the bytes
unfoldable pub args_len : List Str → ℕ
args_len [] = 0
args_len (a ∷ args) = length a + 1 + args_len args

unfoldable pub put_args : List Str → Str
put_args [] = []
put_args (a ∷ args) = delimiter ∷ a ++ put_args args

-- `crinitRtimCmdToMsgStr`: the message and `outLen`
unfoldable pub rtim_cmd_to_msg_str : Bool → RtimCmd → Option (Str × ℕ)
unfolding args_len put_args
rtim_cmd_to_msg_str alloc cmd = elim (op_str_get_by_rtim_op cmd.op) [
  | none ↦ none
  | some name ↦
      if alloc then some (name ++ put_args cmd.args, length name + 1 + args_len cmd.args) else none
]

-- The loop of `crinitBuildRtimCmd` that adds up the sizes, and the one that copies the strings to the
-- backing memory and sets the pointers, which are offsets here
unfoldable pub sum_str_size : List Str → ℕ
sum_str_size [] = 0
sum_str_size (a ∷ args) = length a + 1 + sum_str_size args

unfoldable pub copy_args : ℕ → List Str → List ℕ × List ℕ
copy_args runner [] = ([], [])
copy_args runner (a ∷ args) =
    let rest : List ℕ × List ℕ = copy_args (runner + (length a + 1)) args in
    (a ++ 0 ∷ rest.0, runner ∷ rest.1)

-- A command as it lies in memory: the size of the backing memory, its bytes, and the pointers
pub record Built : Type 0 where
  pub op : RtimOp
  pub argc : ℕ
  pub size : ℕ
  pub backing : List ℕ
  pub pointers : List ℕ

-- `crinitBuildRtimCmd` and `crinitBuildRtimCmdArray`, which take the strings from variable arguments
-- and from an array
unfoldable pub build_rtim_cmd : (ℕ → Bool) → RtimOp → List Str → Option Built
unfolding sum_str_size copy_args
build_rtim_cmd alloc op args =
    let copied : List ℕ × List ℕ = copy_args 0 args in
    if alloc 0 && alloc 1
    then some (record {
      op = op;
      argc = length args;
      size = sum_str_size args;
      backing = copied.0;
      pointers = copied.1;
    })
    else none
