-- ===== src/Conf/Lex.antt =====
-- The lexers of src/lexers.re as functions on the rest of the text, whose end is the null byte.
use crinit.Base.{ℕ, Bool, not, ◌&&◌, ◌||◌, [], ◌∷◌, Option, none, some, ◌==◌, if◌then◌else◌, leb}
use crinit.Base.Str.{Str}

-- `crinitTokenType_t`
pub data Token : Type 0 where
  err end env_key env_val wspc var esc escx cpy dq_str uq_str : Token

-- What a lexer gives: the token, the text between `mbegin` and `mend`, and the text behind it.
pub record Lexed : Type 0 where
  pub token : Token
  pub match : Str
  pub rest : Str

abbrev pub backslash : ℕ
backslash = 92

abbrev pub is_blank : ℕ → Bool
is_blank c = c == b' ' || c == b'\t'

-- `[^"\\\n\x00]`, `[^ "\\\n\x00\t]` and `[^ \\\n\x00\t]`
abbrev pub in_dquot : ℕ → Bool
in_dquot c = not (c == b'"' || (c == backslash || c == b'\n'))

abbrev pub in_nquot : ℕ → Bool
in_nquot c = not (is_blank c || (c == backslash || c == b'\n'))

abbrev pub in_uquot : ℕ → Bool
in_uquot c = not (c == b'"') && in_nquot c

-- The longest piece of bytes of a class and of escaped bytes, with what is behind it
unfoldable pub scan : (ℕ → Bool) → Str → Str × Str
scan plain [] = ([], [])
scan plain (c ∷ []) = if plain c then (c ∷ [], []) else ([], c ∷ [])
scan plain (c ∷ d ∷ s) =
    let escaped : Str × Str = scan plain s in
    let next : Str × Str = scan plain (d ∷ s) in
    if c == backslash
    then (c ∷ d ∷ escaped.0, escaped.1)
    else if plain c
    then (c ∷ next.0, next.1)
    else ([], c ∷ d ∷ s)

unfoldable pub skip_blanks : Str → Str × Str
skip_blanks [] = ([], [])
skip_blanks (c ∷ s) =
    let next : Str × Str = skip_blanks s in if is_blank c then (c ∷ next.0, next.1) else ([], c ∷ s)

-- The closing quotes of `dqstr`, or the rule for any byte
unfoldable pub close_quotes : Str → Str × Str → Lexed
close_quotes s (m, []) = record { token = err; match = b'"' ∷ []; rest = s }
close_quotes s (m, c ∷ r) =
    if c == b'"'
    then record { token = dq_str; match = m; rest = r }
    else record { token = err; match = b'"' ∷ []; rest = s }

-- A piece without quotes has at least one byte.
unfoldable pub unquoted : ℕ → Str → Str × Str → Lexed
unquoted c s ([], r) = record { token = err; match = c ∷ []; rest = s }
unquoted c s (m, r) = record { token = uq_str; match = m; rest = r }

-- `crinitArgvLex`
unfoldable pub argv_lex : Bool → Str → Lexed
unfolding scan skip_blanks close_quotes unquoted
argv_lex dq [] = record { token = end; match = []; rest = [] }
argv_lex dq (c ∷ s) =
    if is_blank c
    then record { token = wspc; match = c ∷ (skip_blanks s).0; rest = (skip_blanks s).1 }
    else if dq && c == b'"'
    then close_quotes s (scan in_dquot s)
    else unquoted c s (scan (if dq then in_uquot else in_nquot) (c ∷ s))

unfoldable pub is_hex : ℕ → Bool
is_hex c = (leb b'0' c && leb c b'9') || ((leb b'a' c && leb c b'f') || (leb b'A' c && leb c b'F'))

-- Behind `\x`
unfoldable pub hex_seq : Str → Lexed
unfolding is_hex
hex_seq (a ∷ b ∷ s) =
    if is_hex a && is_hex b
    then record { token = escx; match = a ∷ b ∷ []; rest = s }
    else record { token = esc; match = backslash ∷ b'x' ∷ []; rest = a ∷ b ∷ s }
hex_seq (a ∷ []) = record { token = esc; match = backslash ∷ b'x' ∷ []; rest = a ∷ [] }
hex_seq [] = record { token = esc; match = backslash ∷ b'x' ∷ []; rest = [] }

-- Behind `\`
unfoldable pub esc_seq : Str → Lexed
unfolding hex_seq
esc_seq [] = record { token = err; match = backslash ∷ []; rest = [] }
esc_seq (d ∷ s) =
    if d == b'x' then hex_seq s else record { token = esc; match = backslash ∷ d ∷ []; rest = s }

-- `crinitEscLex`
unfoldable pub esc_lex : Str → Lexed
unfolding esc_seq
esc_lex [] = record { token = end; match = []; rest = [] }
esc_lex (c ∷ s) =
    if c == backslash then esc_seq s else record { token = cpy; match = c ∷ []; rest = s }

-- `varname` and `envkey`: `[a-zA-Z_][a-zA-Z0-9_]*`
unfoldable pub starts_name : ℕ → Bool
starts_name c = (leb b'a' c && leb c b'z') || ((leb b'A' c && leb c b'Z') || c == b'_')

unfoldable pub in_name : ℕ → Bool
unfolding starts_name
in_name c = starts_name c || (leb b'0' c && leb c b'9')

unfoldable pub scan_name : Str → Str × Str
unfolding in_name
scan_name [] = ([], [])
scan_name (c ∷ s) =
    let next : Str × Str = scan_name s in if in_name c then (c ∷ next.0, next.1) else ([], c ∷ s)

-- The text before the last quotes, and the text behind them
unfoldable pub last_quote : Str → Option (Str × Str)
last_quote [] = none
last_quote (c ∷ s) = elim (last_quote s) [
  | some p ↦ some (c ∷ p.0, p.1)
  | none ↦ if c == b'"' then some ([], s) else none
]

-- `envval` reaches to the last quotes.
unfoldable pub quoted_val : Str → Option (Str × Str) → Lexed
quoted_val s none = record { token = err; match = b'"' ∷ []; rest = s }
quoted_val s (some p) = record { token = env_val; match = p.0; rest = p.1 }

-- `crinitEnvVarOuterLex`
unfoldable pub env_outer_lex : Str → Lexed
unfolding starts_name scan_name skip_blanks quoted_val last_quote
env_outer_lex [] = record { token = end; match = []; rest = [] }
env_outer_lex (c ∷ s) =
    if starts_name c
    then record { token = env_key; match = c ∷ (scan_name s).0; rest = (scan_name s).1 }
    else if is_blank c
    then record { token = wspc; match = c ∷ (skip_blanks s).0; rest = (skip_blanks s).1 }
    else if c == b'"'
    then quoted_val s (last_quote s)
    else record { token = err; match = c ∷ []; rest = s }

abbrev copy_dollar : Str → Lexed
copy_dollar s = record { token = cpy; match = b'$' ∷ []; rest = s }

-- The closing brace of a variable
close_brace : Str → Str → Str → Lexed
close_brace s m [] = copy_dollar s
close_brace s m (c ∷ r) =
    if c == b'}' then record { token = var; match = m; rest = r } else copy_dollar s

-- Behind `${`; `s` is what follows the dollar.
open_brace : Str → Str → Lexed
unfolding starts_name scan_name close_brace
open_brace s [] = copy_dollar s
open_brace s (c ∷ r) =
    if starts_name c then close_brace s (c ∷ (scan_name r).0) (scan_name r).1 else copy_dollar s

dollar : Str → Lexed
unfolding open_brace
dollar [] = copy_dollar []
dollar (c ∷ r) = if c == b'{' then open_brace (c ∷ r) r else copy_dollar (c ∷ r)

-- `crinitEnvVarInnerLex`
unfoldable pub env_inner_lex : Str → Lexed
unfolding esc_seq dollar
env_inner_lex [] = record { token = end; match = []; rest = [] }
env_inner_lex (c ∷ s) =
    if c == backslash
    then esc_seq s
    else if c == b'$'
    then dollar s
    else record { token = cpy; match = c ∷ []; rest = s }
