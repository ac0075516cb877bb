-- ===== src/Conf/Ini.antt =====
-- The entries of a configuration file: `crinitIniHandler`, and `crinitParseConf` of src/confparse.c
-- behind the reading of the file and the check of its signature.
use crinit.Base.{
  ℕ, zero, suc, ◌-◌, Bool, true, false, not, ◌&&◌, List, [], ◌∷◌, Option, none, some, ◌==◌, ltb,
  length, if◌then◌else◌, map,
}
use crinit.Base.Str.{Str, str_eq, take, drop}
use crinit.Conf.StrArr.{Conv, good, bad, Mem, part, first_of}
use crinit.Conf.Value.{StrTo}
use crinit.Conf.Text.{split_at}
pub mod RoundTrip

unfoldable pub are_spaces : Str → Bool
are_spaces [] = true
are_spaces (c ∷ s) = c == b' ' && are_spaces s

-- The content up to the last quotes, which only spaces may follow
unfoldable pub to_quotes : Str → Option Str
unfolding are_spaces
to_quotes [] = none
to_quotes (c ∷ s) =
    let rest : Option Str = to_quotes s in
    elim rest [ some m ↦ some (c ∷ m) | none ↦ if c == b'"' && are_spaces s then some [] else none ]

-- `crinitMatchQuotedConfig`: the content of the quotes, if the whole value is quoted
unfoldable pub match_quoted_config : Str → Option Str
unfolding to_quotes
match_quoted_config [] = none
match_quoted_config (c ∷ s) =
    let rest : Option Str = match_quoted_config s in
    if c == b' ' then rest else if c == b'"' then to_quotes s else none

abbrev pub or_else : Option Str → Str → Str
or_else none s = s
or_else (some m) s = m

-- `crinitIniParserCtx_t`: the elements before `pList`, the last one first, whether `pList` is a new element
-- behind `last` and not the same, and `keyArrayCount`. What a failed call leaves in the element at
-- `pList` is not kept, since the next call sets it again and the list is freed after a failure.
pub record Parser : Type 0 where
  pub entries : List (Str × Str)
  pub is_grown : Bool
  pub key_array_count : ℕ

abbrev pub last_key : List (Str × Str) → Option Str
last_key [] = none
last_key (e ∷ l) = some e.0

abbrev pub differs : Option Str → Str → Bool
differs none base = false
differs (some key) base = not (str_eq base key)

-- The counter, set to 0 at the beginning of an array
abbrev pub count_for : Parser → Str → ℕ
count_for p base = if p.is_grown && differs (last_key p.entries) base then 0 else p.key_array_count

-- The name of an option and the counter behind it, or the counter if the subscript is refused
pub data Name : Type 0 where
  named : Str → ℕ → Name
  unordered : ℕ → Name

module _ (strtoul : Str → StrTo ℕ) where
  -- A subscript with a number
  unfoldable pub numbered : Parser → Str → Str → Name
  unfolding drop
  numbered p base behind =
      if not ((strtoul behind).consumed == 0)
        && (first_of (drop (strtoul behind).consumed behind) == b']'
            && (strtoul behind).value == count_for p base)
      then named base (suc (count_for p base))
      else unordered (count_for p base)

  -- Legacy array keys
  unfoldable pub subscript : Parser → Str → Option (Str × Str) → Name
  unfolding numbered take
  subscript p key none = named key p.key_array_count
  subscript p key (some (before, behind)) =
      if not (ltb 2 (length key))
      then named key p.key_array_count
      else if first_of behind == b']'
      then named (take (length key - 2) key) (suc (count_for p (take (length key - 2) key)))
      else numbered p before behind

  -- Behind the name: the copies of key and value, and the next element
  unfoldable pub add_entry : Mem → Str → Parser → Name → Bool × Parser
  unfolding match_quoted_config
  add_entry mem value p (unordered n) = (false, record p { key_array_count = n })
  add_entry mem value p (named key n) =
      if not (mem (0 ∷ []) && mem (1 ∷ []))
      then (false, record p { key_array_count = n })
      else if mem (2 ∷ [])
      then (
        true,
        record {
          entries = (key, or_else (match_quoted_config value) value) ∷ p.entries;
          is_grown = true;
          key_array_count = n;
        },
      )
      else (false, record { entries = p.entries; is_grown = false; key_array_count = n })

  -- `crinitIniHandler`
  unfoldable pub ini_handler : Mem → Str → Str → Parser → Bool × Parser
  unfolding subscript add_entry split_at
  ini_handler mem key value p = add_entry mem value p (subscript p key (split_at b'[' key))

  -- The calls of `ini_parse_string`, which goes on after a failed one
  unfoldable pub run_handler : Mem → ℕ → List (Str × Str) → Parser → Bool × Parser
  unfolding ini_handler
  run_handler mem i [] p = (true, p)
  run_handler mem i (e ∷ pairs) p =
      let step : Bool × Parser = ini_handler (part mem i) e.0 e.1 p in
      let rest : Bool × Parser = run_handler mem (suc i) pairs step.1 in (step.0 && rest.0, rest.1)

unfoldable pub in_order : List (Str × Str) → List (Option (Str × Str)) → List (Option (Str × Str))
in_order [] l = l
in_order (e ∷ entries) l = in_order entries (some e ∷ l)

-- The list behind its trimmed tail. Without an entry the first element is kept, and its key and value are
-- not set (`none`).
unfoldable pub conf_list : List (Str × Str) → List (Option (Str × Str))
unfolding in_order
conf_list [] = none ∷ []
conf_list (e ∷ entries) = in_order (e ∷ entries) []

-- `crinitParseConf` on the pairs that the parser reads from a file, and whether it can read all of it
unfoldable pub parse_conf :
    (Str → StrTo ℕ) → Mem → List (Str × Str) → Bool → Conv (List (Option (Str × Str)))
unfolding run_handler conf_list
parse_conf strtoul mem pairs is_read =
    let p : Bool × Parser =
      run_handler strtoul (part mem 1) 0 pairs
        (record { entries = []; is_grown = false; key_array_count = 0 }) in
    if mem (0 ∷ []) && (is_read && p.0) then good (conf_list p.1.entries) else bad
