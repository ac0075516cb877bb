-- ===== src/Conf/StrArr.antt =====
-- `crinitConfConvToStrArr` and `crinitCopyEscaped` of src/confconv.c.
pub mod RoundTrip
pub mod Ascii
pub mod Bounds
use crinit.Base.{
  ℕ, zero, suc, ◌+◌, ◌-◌, ◌*◌, Bool, true, false, List, [], ◌∷◌, Option, none, some, ◌==◌,
  if◌then◌else◌, leb, ltb, length, get_elem?,
}
use crinit.Base.Str.{Str}
use crinit.Conf.Lex.{
  Token, Lexed, err, end, env_key, env_val, wspc, var, esc, escx, cpy, dq_str, uq_str, argv_lex,
  esc_lex,
}

-- What a conversion gives: a value, -1 or NULL, or a read outside of an array.
pub data Conv (A : Type 0) : Type 0 where
  good : A → Conv A
  bad : Conv A
  undefined : Conv A

abbrev pub on_conv : {A B : Type 0} → Conv A → (A → Conv B) → Conv B
on_conv (good a) f = f a
on_conv bad f = bad
on_conv undefined f = undefined

-- Which allocations of a call succeed: `mem (k ∷ [])` is its k-th, and `part mem k` are those of the
-- call that comes at place k.
abbrev pub Mem : Type 0
Mem = List ℕ → Bool

abbrev pub part : Mem → ℕ → Mem
part mem k path = mem (k ∷ path)

-- `crinitEscMap`; the bytes that it does not name are 0.
unfoldable pub esc_map : ℕ → ℕ
esc_map c =
    if c == b'n'
    then 10
    else if c == b'r'
    then 13
    else if c == b'b'
    then 8
    else if c == b'a'
    then 7
    else if c == b'f'
    then 12
    else if c == b't'
    then 9
    else if c == b'v'
    then 11
    else if c == b'"'
    then b'"'
    else if c == 39
    then 39
    else if c == 92
    then 92
    else if c == b'$'
    then b'$'
    else if c == b' '
    then b' '
    else 0

unfoldable pub hex_digit : ℕ → ℕ
hex_digit c = if leb c b'9' then c - 48 else if leb b'a' c then c - 87 else c - 55

abbrev pub first_of : Str → ℕ
first_of [] = 0
first_of (c ∷ s) = c

abbrev pub second_of : Str → ℕ
second_of [] = 0
second_of (c ∷ s) = first_of s

-- The byte of a token of `crinitEscLex`. The array `crinitEscMap` has 128 elements, and the index is
-- not checked: a byte above 127 is a negative `char`.
unfoldable pub escaped_byte : Token → Str → Conv ℕ
unfolding esc_map hex_digit
escaped_byte cpy m = good (first_of m)
escaped_byte esc m = if ltb (second_of m) 128 then good (esc_map (second_of m)) else undefined
escaped_byte escx m = good (hex_digit (first_of m) * 16 + hex_digit (second_of m))
escaped_byte _ m = bad

abbrev pub is_end : Token → Bool
is_end end = true
is_end _ = false

-- The loop of `crinitCopyEscaped`, on fuel. The code copies the text to the destination first and decodes
-- it there, so it reads the bytes of the text: a token takes at least the one byte that it stands for, and only
-- bytes that have been read are overwritten. The memory is not modelled here, only what is decoded.
unfoldable pub copy_escaped : ℕ → Str → Conv Str
unfolding escaped_byte esc_lex
copy_escaped zero s = bad
copy_escaped (suc n) s =
    let rest : Conv Str = copy_escaped n (esc_lex s).rest in
    if is_end (esc_lex s).token
    then good []
    else on_conv (escaped_byte (esc_lex s).token (esc_lex s).match)
        λ c. on_conv rest λ out. good (c ∷ out)

-- What `strlen` and `strcmp` see of the bytes that were written
unfoldable pub c_string : Str → Str
c_string [] = []
c_string (c ∷ s) = if c == 0 then [] else c ∷ c_string s

-- An element of the array
unfoldable pub copy_arg : Str → Conv Str
unfolding copy_escaped c_string
copy_arg m = on_conv (copy_escaped (suc (length m)) m) λ out. good (c_string out)

-- The first loop: how many arguments there are
unfoldable pub count_token : Token → Option ℕ → Option ℕ
count_token wspc rest = rest
count_token end rest = some 0
count_token uq_str rest = elim rest [ none ↦ none | some n ↦ some (suc n) ]
count_token dq_str rest = elim rest [ none ↦ none | some n ↦ some (suc n) ]
count_token _ rest = none

unfoldable pub count_args : ℕ → Bool → Str → Option ℕ
unfolding count_token argv_lex
count_args zero dq s = none
count_args (suc n) dq s =
    let rest : Option ℕ = count_args n dq (argv_lex dq s).rest in
    count_token (argv_lex dq s).token rest

-- The second loop: the arguments
unfoldable pub fill_token : Token → Str → Conv (List Str) → Conv (List Str)
fill_token wspc m rest = rest
fill_token end m rest = good []
fill_token uq_str m rest = on_conv (copy_arg m) λ arg. on_conv rest λ args. good (arg ∷ args)
fill_token dq_str m rest = on_conv (copy_arg m) λ arg. on_conv rest λ args. good (arg ∷ args)
fill_token _ m rest = bad

unfoldable pub fill_args : ℕ → Bool → Str → Conv (List Str)
unfolding fill_token argv_lex copy_arg
fill_args zero dq s = bad
fill_args (suc n) dq s =
    let rest : Conv (List Str) = fill_args n dq (argv_lex dq s).rest in
    fill_token (argv_lex dq s).token (argv_lex dq s).match rest

-- Behind the first loop: the array, and the test that both loops saw the same number
unfoldable pub filled : Mem → Bool → Str → Option ℕ → Conv (List Str)
filled mem dq s none = bad
filled mem dq s (some n) =
    if mem (1 ∷ [])
    then if n == 0
      then good []
      else on_conv (fill_args (suc (length s)) dq s)
          (λ args. if length args == n then good args else bad)
    else bad

-- `crinitConfConvToStrArr`
unfoldable pub conv_to_str_arr : Mem → Bool → Str → Conv (List Str)
unfolding filled count_args fill_args
conv_to_str_arr mem dq s =
    if mem (0 ∷ []) then filled mem dq s (count_args (suc (length s)) dq s) else bad
