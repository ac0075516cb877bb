-- ===== src/Conf/StrArr/RoundTrip.antt =====
-- Arguments that are written in quotes are read back by `crinitConfConvToStrArr`.
use crinit.Base.{
  ℕ, zero, suc, ◌+◌, ◌<◌, ◌≡◌, ◌≢◌, refl, ap, true, List, [], ◌∷◌, ◌++◌, some, ◌==◌, if◌then◌else◌,
  length, length-append, All, arith, ==_iff,
}
use crinit.Base.Str.{Str}
use crinit.Conf.Lex.{dq_str, backslash, in_dquot, scan, skip_blanks, argv_lex}
use crinit.Conf.StrArr.{
  good, Mem, copy_escaped, c_string, copy_arg, count_args, fill_args, conv_to_str_arr,
}

-- An escape sequence for quotes, backslashes and line ends
unfoldable pub quoted : Str → Str
quoted [] = []
quoted (c ∷ s) =
    if c == b'"'
    then backslash ∷ b'"' ∷ quoted s
    else if c == backslash
    then backslash ∷ backslash ∷ quoted s
    else if c == b'\n'
    then backslash ∷ b'n' ∷ quoted s
    else c ∷ quoted s

-- Each argument in quotes, with a blank behind it
unfoldable pub written : List Str → Str
unfolding quoted
written [] = []
written (a ∷ args) = b'"' ∷ (quoted a ++ b'"' ∷ b' ' ∷ written args)

-- A C string has no null bytes.
abbrev pub IsText : Str → Type 0
IsText s = All (λ c. c ≢ 0) s

scan-plain :
    (c : ℕ) (s : Str)
    → in_dquot c ≡ true
    → scan in_dquot (c ∷ s) ≡ (c ∷ (scan in_dquot s).0, (scan in_dquot s).1)
unfolding scan
scan-plain c [] h = ground (arith, h)
scan-plain c (d ∷ s) h = ground (arith, h)

scan-quote : (s : Str) → scan in_dquot (b'"' ∷ s) ≡ ([], b'"' ∷ s)
unfolding scan
scan-quote [] = refl
scan-quote (d ∷ s) = refl

pub scan-quoted : (a r : Str) → scan in_dquot (quoted a ++ b'"' ∷ r) ≡ (quoted a, b'"' ∷ r)
unfolding quoted scan
scan-quoted [] r = scan-quote r
scan-quoted (c ∷ a) r = ground (arith, scan-quoted a r, scan-plain c (quoted a ++ b'"' ∷ r))

pub copy_escaped-quoted :
    (n : ℕ) (a : Str) → length (quoted a) < n → copy_escaped n (quoted a) ≡ good a
unfolding copy_escaped quoted
copy_escaped-quoted zero a h = absurd (omega (arith, h))
copy_escaped-quoted (suc n) [] h = refl
copy_escaped-quoted (suc n) (c ∷ a) h = ground (arith, copy_escaped-quoted n a)

pub c_string-IsText : (a : Str) → IsText a → c_string a ≡ a
unfolding c_string
c_string-IsText [] h = refl
c_string-IsText (c ∷ a) h = ground (arith, h.0, c_string-IsText a h.1)

copy_arg-quoted : (a : Str) → IsText a → copy_arg (quoted a) ≡ good a
unfolding copy_arg
copy_arg-quoted a h =
    rw (copy_escaped-quoted (suc (length (quoted a))) a (omega arith))
      (ap good (c_string-IsText a h))

argv_lex-quote :
    (a r : Str)
    → argv_lex true (b'"' ∷ (quoted a ++ b'"' ∷ r))
      ≡ record { token = dq_str; match = quoted a; rest = r }
unfolding argv_lex
argv_lex-quote a r = rw (scan-quoted a r) refl

skip_blanks-written : (args : List Str) → skip_blanks (written args) ≡ ([], written args)
unfolding skip_blanks written
skip_blanks-written [] = refl
skip_blanks-written (a ∷ args) = refl

length-written :
    (a : Str) (args : List Str) → 2 + length (written args) < length (written (a ∷ args))
unfolding written
length-written a args = omega (arith, length-append (quoted a) (b'"' ∷ b' ' ∷ written args))

count_args-written :
    (n : ℕ) (args : List Str)
    → length (written args) < n
    → count_args n true (written args) ≡ some (length args)
unfolding count_args written
count_args-written zero args h = absurd (omega (arith, h))
count_args-written (suc n) [] h = refl
count_args-written (suc zero) (a ∷ args) h = absurd (omega (arith, h, length-written a args))
count_args-written (suc (suc n)) (a ∷ args) h = rw (argv_lex-quote a (b' ' ∷ written args)) (
    rw (skip_blanks-written args)
      (rw (count_args-written n args (omega (arith, h, length-written a args))) refl))

fill_args-written :
    (n : ℕ) (args : List Str)
    → All IsText args
    → length (written args) < n
    → fill_args n true (written args) ≡ good args
unfolding fill_args written
fill_args-written zero args t h = absurd (omega (arith, h))
fill_args-written (suc n) [] t h = refl
fill_args-written (suc zero) (a ∷ args) t h = absurd (omega (arith, h, length-written a args))
fill_args-written (suc (suc n)) (a ∷ args) t h = rw (argv_lex-quote a (b' ' ∷ written args)) (
    rw (skip_blanks-written args) (
      rw (copy_arg-quoted a t.0)
        (rw (fill_args-written n args t.1 (omega (arith, h, length-written a args))) refl)))

-- While both allocations succeed, arguments without null bytes that are written in double quotes, with
-- escape sequences for quotes, backslashes and line ends, are read back as they were.
pub conv_to_str_arr-written :
    (mem : Mem) (args : List Str)
    → mem (0 ∷ []) ≡ true
    → mem (1 ∷ []) ≡ true
    → All IsText args
    → conv_to_str_arr mem true (written args) ≡ good args
unfolding conv_to_str_arr written count_args
conv_to_str_arr-written mem [] m0 m1 t = rw m0 (rw m1 refl)
conv_to_str_arr-written mem (a ∷ args) m0 m1 t = rw m0 (
    rw (count_args-written (suc (length (written (a ∷ args)))) (a ∷ args) (omega arith)) (
      rw m1 (
        rw (fill_args-written (suc (length (written (a ∷ args)))) (a ∷ args) t (omega arith))
          (rw ((==_iff (length (a ∷ args)) (length (a ∷ args))).1 refl) (ground arith)))))
