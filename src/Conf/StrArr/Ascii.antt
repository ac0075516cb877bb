-- ===== src/Conf/StrArr/Ascii.antt =====
-- On ASCII text `crinitConfConvToStrArr` reads only inside of its arrays.
use crinit.Base.{
  ℕ, zero, suc, ◌<◌, ◌≡◌, refl, Bool, true, false, ◌&&◌, List, [], ◌∷◌, Option, none, some, ◌==◌,
  if◌then◌else◌, ltb, length, All, Bool-cases, inl, inr, arith,
}
use crinit.Base.Str.{Str}
use crinit.Conf.Lex.{
  Token, Lexed, wspc, esc, dq_str, uq_str, backslash, is_blank, in_dquot, scan, skip_blanks,
  close_quotes, unquoted, argv_lex, is_hex, hex_seq, esc_seq, esc_lex,
}
use crinit.Conf.StrArr.{
  Conv, good, bad, undefined, on_conv, Mem, escaped_byte, is_end, copy_escaped, copy_arg,
  fill_token, fill_args, filled, conv_to_str_arr,
}
use crinit.Conf.StrArr.Bounds.{in_class}

abbrev pub IsAscii : Str → Type 0
IsAscii s = All (λ c. c < 128) s

-- A conversion that reads no array outside of its bounds
abbrev pub IsDefined : {A : Type 0} → Conv A → Type 0
IsDefined (good a) = Unit
IsDefined bad = Unit
IsDefined undefined = ⊥

pub on_conv-IsDefined :
    {A B : Type 0} (c : Conv A) (f : A → Conv B)
    → IsDefined c
    → ((a : A) → IsDefined (f a))
    → IsDefined (on_conv c f)
on_conv-IsDefined (good a) f h k = k a
on_conv-IsDefined bad f h k = tt
on_conv-IsDefined undefined f h k = h

scan-IsAscii :
    (plain : ℕ → Bool) (s : Str) → IsAscii s → IsAscii (scan plain s).0 × IsAscii (scan plain s).1
unfolding scan
scan-IsAscii plain [] h = (tt, tt)
scan-IsAscii plain (c ∷ []) h = elim (Bool-cases (plain c)) [
  | inl e ↦ rw e (h, tt)
  | inr e ↦ rw e (tt, h)
]
scan-IsAscii plain (c ∷ d ∷ s) h = elim (Bool-cases (c == backslash)) [
  | inl e ↦ let ih = scan-IsAscii plain s h.1.1 in rw e ((h.0, (h.1.0, ih.0)), ih.1)
  | inr e ↦ rw e (elim (Bool-cases (plain c)) [
    | inl f ↦ let ih = scan-IsAscii plain (d ∷ s) h.1 in rw f ((h.0, ih.0), ih.1)
    | inr f ↦ rw f (tt, h)
  ])
]

skip_blanks-IsAscii : (s : Str) → IsAscii s → IsAscii (skip_blanks s).1
unfolding skip_blanks
skip_blanks-IsAscii [] h = tt
skip_blanks-IsAscii (c ∷ s) h = elim (Bool-cases (is_blank c)) [
  | inl e ↦ rw e (skip_blanks-IsAscii s h.1)
  | inr e ↦ rw e h
]

abbrev is_copied : Token → Bool
is_copied dq_str = true
is_copied uq_str = true
is_copied _ = false

-- A copied match and the rest of the text
abbrev Parts : Lexed → Type 0
Parts l = ((is_copied l.token ≡ true) → IsAscii l.match) × IsAscii l.rest

close_quotes-Parts :
    (s : Str) (p : Str × Str) → IsAscii s → IsAscii p.0 × IsAscii p.1 → Parts (close_quotes s p)
unfolding close_quotes
close_quotes-Parts s (m, []) h k = (λ e. absurd (cc e), h)
close_quotes-Parts s (m, c ∷ r) h k = elim (Bool-cases (c == b'"')) [
  | inl e ↦ rw e (λ _. k.0, k.1.1)
  | inr e ↦ rw e (λ f. absurd (cc f), h)
]

unquoted-Parts :
    (c : ℕ) (s : Str) (p : Str × Str)
    → IsAscii s
    → IsAscii p.0 × IsAscii p.1
    → Parts (unquoted c s p)
unfolding unquoted
unquoted-Parts c s ([], r) h k = (λ e. absurd (cc e), h)
unquoted-Parts c s (x ∷ m, r) h k = (λ _. k.0, k.1)

argv_lex-Parts : (dq : Bool) (s : Str) → IsAscii s → Parts (argv_lex dq s)
unfolding argv_lex
argv_lex-Parts dq [] h = (λ e. absurd (cc e), tt)
argv_lex-Parts dq (c ∷ s) h = elim (Bool-cases (is_blank c)) [
  | inl e ↦ rw e (λ f. absurd (cc f), skip_blanks-IsAscii s h.1)
  | inr e ↦ rw e (elim (Bool-cases (dq && c == b'"')) [
    | inl f ↦ rw f (close_quotes-Parts s (scan in_dquot s) h.1 (scan-IsAscii in_dquot s h.1))
    | inr f ↦
        rw f (
          unquoted-Parts c s (scan (in_class dq) (c ∷ s)) h.1
            (scan-IsAscii (in_class dq) (c ∷ s) h))
  ])
]

-- The index into the map of escape sequences is inside, and the rest is ASCII.
abbrev Escaped : Lexed → Type 0
Escaped l = IsDefined (escaped_byte l.token l.match) × IsAscii l.rest

ltb-true : (c : ℕ) → c < 128 → ltb c 128 ≡ true
ltb-true c h = ground (arith, h)

esc-Escaped :
    (d : ℕ) (s : Str)
    → d < 128
    → IsAscii s
    → Escaped (record { token = esc; match = backslash ∷ d ∷ []; rest = s })
unfolding escaped_byte
esc-Escaped d s h k = (rw (ltb-true d h) tt, k)

hex_seq-Escaped : (s : Str) → IsAscii s → Escaped (hex_seq s)
unfolding hex_seq escaped_byte
hex_seq-Escaped [] h = (tt, tt)
hex_seq-Escaped (a ∷ []) h = (tt, h)
hex_seq-Escaped (a ∷ b ∷ s) h = elim (Bool-cases (is_hex a && is_hex b)) [
  | inl e ↦ rw e (tt, h.1.1)
  | inr e ↦ rw e (tt, h)
]

esc_lex-Escaped : (s : Str) → IsAscii s → Escaped (esc_lex s)
unfolding esc_lex esc_seq escaped_byte
esc_lex-Escaped [] h = (tt, tt)
esc_lex-Escaped (c ∷ []) h = elim (Bool-cases (c == backslash)) [
  | inl e ↦ rw e (tt, tt)
  | inr e ↦ rw e (tt, tt)
]
esc_lex-Escaped (c ∷ d ∷ s) h = elim (Bool-cases (c == backslash)) [
  | inr e ↦ rw e (tt, h.1)
  | inl e ↦ rw e (elim (Bool-cases (d == b'x')) [
    | inl f ↦ rw f (hex_seq-Escaped s h.1.1)
    | inr f ↦ rw f (esc-Escaped d s h.1.0 h.1.1)
  ])
]

copy_escaped-IsDefined : (n : ℕ) (s : Str) → IsAscii s → IsDefined (copy_escaped n s)
unfolding copy_escaped
copy_escaped-IsDefined zero s h = tt
copy_escaped-IsDefined (suc n) s h =
    let p : Escaped (esc_lex s) = esc_lex-Escaped s h in
    let ih : IsDefined (copy_escaped n (esc_lex s).rest) =
      copy_escaped-IsDefined n (esc_lex s).rest p.1 in
    elim (Bool-cases (is_end (esc_lex s).token)) [
      | inl e ↦ rw e tt
      | inr e ↦ rw e (
          on_conv-IsDefined (escaped_byte (esc_lex s).token (esc_lex s).match) _ p.0
            (λ c. on_conv-IsDefined (copy_escaped n (esc_lex s).rest) _ ih (λ out. tt)))
    ]

copy_arg-IsDefined : (m : Str) → IsAscii m → IsDefined (copy_arg m)
unfolding copy_arg
copy_arg-IsDefined m h =
    on_conv-IsDefined (copy_escaped (suc (length m)) m) _
      (copy_escaped-IsDefined (suc (length m)) m h) (λ out. tt)

fill_token-IsDefined :
    (t : Token) (m : Str) (rest : Conv (List Str))
    → (is_copied t ≡ true → IsAscii m)
    → IsDefined rest
    → IsDefined (fill_token t m rest)
unfolding fill_token
fill_token-IsDefined wspc m rest h k = k
fill_token-IsDefined uq_str m rest h k =
    on_conv-IsDefined (copy_arg m) _ (copy_arg-IsDefined m (h refl))
      (λ arg. on_conv-IsDefined rest _ k (λ args. tt))
fill_token-IsDefined dq_str m rest h k =
    on_conv-IsDefined (copy_arg m) _ (copy_arg-IsDefined m (h refl))
      (λ arg. on_conv-IsDefined rest _ k (λ args. tt))
fill_token-IsDefined _ m rest h k = tt

fill_args-IsDefined : (n : ℕ) (dq : Bool) (s : Str) → IsAscii s → IsDefined (fill_args n dq s)
unfolding fill_args
fill_args-IsDefined zero dq s h = tt
fill_args-IsDefined (suc n) dq s h =
    let p : Parts (argv_lex dq s) = argv_lex-Parts dq s h in
    fill_token-IsDefined (argv_lex dq s).token (argv_lex dq s).match _ p.0
      (fill_args-IsDefined n dq (argv_lex dq s).rest p.1)

if-IsDefined :
    {A : Type 0} (b : Bool) (c d : Conv A)
    → IsDefined c
    → IsDefined d
    → IsDefined (if b then c else d)
if-IsDefined true c d h k = h
if-IsDefined false c d h k = k

filled-IsDefined :
    (mem : Mem) (dq : Bool) (s : Str) (n : Option ℕ) → IsAscii s → IsDefined (filled mem dq s n)
unfolding filled
filled-IsDefined mem dq s none h = tt
filled-IsDefined mem dq s (some n) h =
    if-IsDefined (mem (1 ∷ [])) _ bad
      (if-IsDefined (n == 0) (good []) _ tt (
        on_conv-IsDefined (fill_args (suc (length s)) dq s) _
          (fill_args-IsDefined (suc (length s)) dq s h)
          (λ args. if-IsDefined (length args == n) (good args) bad tt tt)))
      tt

-- On a text of ASCII bytes no array is read outside of its bounds.
pub conv_to_str_arr-IsDefined :
    (mem : Mem) (dq : Bool) (s : Str) → IsAscii s → IsDefined (conv_to_str_arr mem dq s)
unfolding conv_to_str_arr
conv_to_str_arr-IsDefined mem dq s h =
    if-IsDefined (mem (0 ∷ [])) _ bad (filled-IsDefined mem dq s _ h) tt
