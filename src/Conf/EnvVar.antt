-- ===== src/Conf/EnvVar.antt =====
-- `crinitConfConvToEnvSetMember` of src/confconv.c: a variable of a set, from `KEY "value"`.
pub mod Safety
pub mod RoundTrip
use crinit.Base.{
  ℕ, zero, suc, ◌+◌, ◌*◌, Bool, true, false, List, [], ◌∷◌, ◌++◌, Option, none, some, ◌==◌,
  if◌then◌else◌, ltb, length, err, ok,
}
use crinit.Base.Str.{Str}
use crinit.EnvSet.{EnvSet, Outcome, done, Alloc, get, put}
use crinit.Conf.Lex.{
  Token, Lexed, end, env_key, env_val, wspc, var, esc, escx, cpy, env_outer_lex, env_inner_lex,
}
use crinit.Conf.StrArr.{Mem, part, esc_map, hex_digit, first_of, second_of, c_string}

-- The key and the value that the loop over the outer tokens has found
abbrev pub Found : Type 0
Found = Option Str × Option Str

-- The text has both, or the call fails.
pub both : Found → Option (Str × Str)
both (some key, some val) = some (key, val)
both _ = none

-- A token of the outer loop: `step` is what the rest of the text gives for what has been found.
pub outer_token : Mem → Token → Str → Found → (Found → Option (Str × Str)) → Option (Str × Str)
unfolding both
outer_token mem env_key m (none, val) step = if mem (0 ∷ []) then step (some m, val) else none
outer_token mem env_val m (some key, none) step =
    if mem (1 ∷ []) then step (some key, some m) else none
outer_token mem wspc m found step = step found
outer_token mem end m found step = both found
outer_token mem _ m found step = none

unfoldable pub split_member : Mem → ℕ → Str → Found → Option (Str × Str)
unfolding outer_token env_outer_lex
split_member mem zero s found = none
split_member mem (suc n) s found =
    outer_token mem (env_outer_lex s).token (env_outer_lex s).match found
      (split_member mem n (env_outer_lex s).rest)

-- An escape sequence that the map does not name is an error here, as is a byte above 127.
escaped : ℕ → Option Str
unfolding esc_map
escaped c = if ltb c 128 then (if esc_map c == 0 then none else some (esc_map c ∷ [])) else none

-- The value of a variable, or nothing for an unknown one; the buffer grows by its length.
substituted : Mem → Option Str → Option Str
substituted mem none = some []
substituted mem (some []) = some []
substituted mem (some (c ∷ val)) = if mem (1 ∷ []) then some (c ∷ val) else none

-- What a token of the inner loop writes
unfoldable pub written_for : Mem → EnvSet → Token → Str → Option Str
unfolding escaped substituted hex_digit
written_for mem es cpy m = some (first_of m ∷ [])
written_for mem es esc m = escaped (second_of m)
written_for mem es escx m = some ((hex_digit (first_of m) * 16 + hex_digit (second_of m)) ∷ [])
written_for mem es var m = if mem (0 ∷ []) then substituted mem (get es m) else none
written_for mem es _ m = none

abbrev pub joined : Option Str → Option Str → Option Str
joined none rest = none
joined (some out) none = none
joined (some out) (some rest) = some (out ++ rest)

abbrev pub on_end : {A : Type 0} → Token → A → A → A
on_end end a b = a
on_end _ a b = b

-- The loop over the inner tokens
unfoldable pub expand : Mem → EnvSet → ℕ → Str → Option Str
unfolding written_for env_inner_lex
expand mem es zero s = none
expand mem es (suc n) s =
    let rest : Option Str = expand mem es n (env_inner_lex s).rest in
    on_end (env_inner_lex s).token (some [])
      (joined (written_for (part mem n) es (env_inner_lex s).token (env_inner_lex s).match) rest)

pub put_expanded : Alloc → EnvSet → Str → Option Str → Outcome
put_expanded alloc es key none = done err es
put_expanded alloc es key (some val) = put alloc es key (c_string val)

pub put_member : Mem → EnvSet → Option (Str × Str) → Outcome
unfolding put_expanded expand c_string
put_member mem es none = done err es
put_member mem es (some (key, val)) =
    if mem (2 ∷ [])
    then put_expanded (λ i. mem (4 ∷ i ∷ [])) es key (expand (part mem 3) es (suc (length val)) val)
    else done err es

pub is_set : Option (List (Option Str)) → ℕ → Bool
is_set none n = false
is_set (some slots) n = ltb 0 n

-- `crinitConfConvToEnvSetMember`
unfoldable pub conv_to_env_set_member : Mem → EnvSet → Str → Outcome
unfolding put_member split_member is_set
conv_to_env_set_member mem es val =
    if is_set es.envp es.alloc_sz
    then put_member mem es (split_member mem (suc (length val)) val (none, none))
    else done err es
