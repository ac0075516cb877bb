-- ===== src/Conf/StrArr/Bounds.antt =====
-- The loops of `crinitConfConvToStrArr` end.
use crinit.Base.{
  ℕ, zero, suc, ◌+◌, ◌≤◌, ◌<◌, ◌≡◌, refl, sym, ap, subst, Bool, true, false, ◌&&◌, List, [], ◌∷◌,
  Option, ◌==◌, if◌then◌else◌, length, Bool-cases, inl, inr, arith,
}
use crinit.Base.Str.{Str}
use crinit.World.Laws.{absurd_test}
use crinit.Conf.Lex.{
  Token, wspc, dq_str, uq_str, backslash, is_blank, in_dquot, in_nquot, in_uquot, scan, skip_blanks,
  argv_lex, close_quotes, unquoted,
}
use crinit.Conf.StrArr.{Conv, count_token, count_args, fill_token, fill_args}

-- A piece and what is behind it have the bytes of the text.
pub length-scan :
    (plain : ℕ → Bool) (s : Str) → length (scan plain s).0 + length (scan plain s).1 ≡ length s
unfolding scan
length-scan plain [] = refl
length-scan plain (c ∷ []) = ground arith
length-scan plain (c ∷ d ∷ s) = elim (Bool-cases (c == backslash)) [
  | inl e ↦ rw e (omega (arith, length-scan plain s))
  | inr e ↦ rw e (elim (Bool-cases (plain c)) [
    | inl f ↦ rw f (omega (arith, length-scan plain (d ∷ s)))
    | inr f ↦ rw f (omega arith)
  ])
]

-- Behind a piece there is no other one.
pub scan-stops : (plain : ℕ → Bool) (s : Str) → (scan plain (scan plain s).1).0 ≡ []
unfolding scan
scan-stops plain [] = refl
scan-stops plain (c ∷ []) = elim (Bool-cases (plain c)) [
  | inl f ↦ rw f refl
  | inr f ↦ rw f (rw f refl)
]
scan-stops plain (c ∷ d ∷ s) = elim (Bool-cases (c == backslash)) [
  | inl e ↦ rw e (scan-stops plain s)
  | inr e ↦ rw e (elim (Bool-cases (plain c)) [
    | inl f ↦ rw f (scan-stops plain (d ∷ s))
    | inr f ↦ rw f (rw e (rw f refl))
  ])
]

pub length-skip_blanks : (s : Str) → length (skip_blanks s).1 ≤ length s
unfolding skip_blanks
length-skip_blanks [] = omega arith
length-skip_blanks (c ∷ s) = ground (arith, length-skip_blanks s)

abbrev pub is_uq : Token → Bool
is_uq uq_str = true
is_uq _ = false

-- The bytes of the class outside of double quotes
abbrev pub in_class : Bool → ℕ → Bool
in_class dq = if dq then in_uquot else in_nquot

-- How many bytes a token takes from the text: the quotes and blanks are not copied.
abbrev pub Takes : Str → Token → Str → Str → Type 0
Takes s wspc m r = length r < length s
Takes s uq_str m r = (0 < length m) × (length m + length r ≡ length s)
Takes s dq_str m r = length m + 2 + length r ≡ length s
Takes s _ m r = Unit

close_quotes-Takes :
    (s : Str) (p : Str × Str)
    → length p.0 + length p.1 ≡ length s
    → Takes (b'"' ∷ s) (close_quotes s p).token (close_quotes s p).match (close_quotes s p).rest
unfolding close_quotes
close_quotes-Takes s (m, []) h = tt
close_quotes-Takes s (m, c ∷ r) h = elim (Bool-cases (c == b'"')) [
  | inl e ↦ rw e (omega (arith, h))
  | inr e ↦ rw e tt
]

unquoted-Takes :
    (c : ℕ) (s : Str) (p : Str × Str)
    → length p.0 + length p.1 ≡ length (c ∷ s)
    → Takes (c ∷ s) (unquoted c s p).token (unquoted c s p).match (unquoted c s p).rest
unfolding unquoted
unquoted-Takes c s ([], r) h = tt
unquoted-Takes c s (x ∷ m, r) h = (omega arith, h)

pub argv_lex-Takes :
    (dq : Bool) (s : Str) → Takes s (argv_lex dq s).token (argv_lex dq s).match (argv_lex dq s).rest
unfolding argv_lex
argv_lex-Takes dq [] = tt
argv_lex-Takes dq (c ∷ s) = elim (Bool-cases (is_blank c)) [
  | inl e ↦ rw e (omega (arith, length-skip_blanks s))
  | inr e ↦ rw e (elim (Bool-cases (dq && c == b'"')) [
    | inl f ↦ rw f (close_quotes-Takes s (scan in_dquot s) (length-scan in_dquot s))
    | inr f ↦
        rw f (unquoted-Takes c s (scan (in_class dq) (c ∷ s)) (length-scan (in_class dq) (c ∷ s)))
  ])
]

close_quotes-ne-uq : (s : Str) (p : Str × Str) → is_uq (close_quotes s p).token ≡ false
unfolding close_quotes
close_quotes-ne-uq s (m, []) = refl
close_quotes-ne-uq s (m, c ∷ r) = ground arith

-- At a text that starts with no piece the lexer finds no argument without quotes.
argv_lex-ne-uq :
    (dq : Bool) (s : Str) → (scan (in_class dq) s).0 ≡ [] → is_uq (argv_lex dq s).token ≡ false
unfolding argv_lex unquoted
argv_lex-ne-uq dq [] h = refl
argv_lex-ne-uq dq (c ∷ s) h = elim (Bool-cases (is_blank c)) [
  | inl e ↦ rw e refl
  | inr e ↦ rw e (elim (Bool-cases (dq && c == b'"')) [
    | inl f ↦ rw f (close_quotes-ne-uq s (scan in_dquot s))
    | inr f ↦ rw f (unquoted-empty (scan (in_class dq) (c ∷ s)) h)
  ])
]
  where
    unquoted-empty : (p : Str × Str) → p.0 ≡ [] → is_uq (unquoted c s p).token ≡ false
    unquoted-empty ([], r) g = refl
    unquoted-empty (x ∷ m, r) g = absurd (ground (arith, g))

uq_rest :
    (dq : Bool) (s : Str)
    → is_uq (argv_lex dq s).token ≡ true
    → (argv_lex dq s).rest ≡ (scan (in_class dq) s).1
unfolding argv_lex unquoted
uq_rest dq [] = λ h. absurd (cc h)
uq_rest dq (c ∷ s) = elim (Bool-cases (is_blank c)) [
  | inl e ↦ rw e (λ h. absurd (cc h))
  | inr e ↦ rw e (elim (Bool-cases (dq && c == b'"')) [
    | inl f ↦ rw f (λ h. absurd (absurd_test h (close_quotes-ne-uq s (scan in_dquot s))))
    | inr f ↦ rw f (of_unquoted (scan (in_class dq) (c ∷ s)))
  ])
]
  where
    of_unquoted :
        (p : Str × Str) → is_uq (unquoted c s p).token ≡ true → (unquoted c s p).rest ≡ p.1
    of_unquoted ([], r) h = absurd (cc h)
    of_unquoted (x ∷ m, r) h = refl

-- Behind an argument without quotes there is no other one.
pub argv_lex-uq-rest :
    (dq : Bool) (s : Str)
    → is_uq (argv_lex dq s).token ≡ true
    → is_uq (argv_lex dq (argv_lex dq s).rest).token ≡ false
argv_lex-uq-rest dq s h =
    subst (λ r. is_uq (argv_lex dq r).token ≡ false) (sym (uq_rest dq s h))
      (argv_lex-ne-uq dq (scan (in_class dq) s).1 (scan-stops (in_class dq) s))

module _ (s m r : Str) where
  same_count :
      (t : Token) (a b : Option ℕ)
      → Takes s t m r
      → (length r < length s → a ≡ b)
      → count_token t a ≡ count_token t b
  unfolding count_token
  same_count wspc a b h e = e h
  same_count uq_str a b h e =
      ap (λ (o : Option ℕ). count_token uq_str o) (e (omega (arith, h.0, h.1)))
  same_count dq_str a b h e = ap (λ (o : Option ℕ). count_token dq_str o) (e (omega (arith, h)))
  same_count _ a b h e = refl

  same_fill :
      (t : Token) (a b : Conv (List Str))
      → Takes s t m r
      → (length r < length s → a ≡ b)
      → fill_token t m a ≡ fill_token t m b
  unfolding fill_token
  same_fill wspc a b h e = e h
  same_fill uq_str a b h e =
      ap (λ (o : Conv (List Str)). fill_token uq_str m o) (e (omega (arith, h.0, h.1)))
  same_fill dq_str a b h e =
      ap (λ (o : Conv (List Str)). fill_token dq_str m o) (e (omega (arith, h)))
  same_fill _ a b h e = refl

-- Both loops of `crinitConfConvToStrArr` end after at most one round more than the text has bytes: with
-- any two numbers of rounds above the length they give the same.
pub count_args-fill_args :
    (n k : ℕ) (dq : Bool) (s : Str)
    → length s < n
    → length s < k
    → (count_args n dq s ≡ count_args k dq s) × (fill_args n dq s ≡ fill_args k dq s)
unfolding count_args fill_args
count_args-fill_args zero k dq s h g = absurd (omega (arith, h))
count_args-fill_args (suc n) zero dq s h g = absurd (omega (arith, g))
count_args-fill_args (suc n) (suc k) dq s h g =
    let ih = count_args-fill_args n k dq (argv_lex dq s).rest in
    (
      same_count s (argv_lex dq s).match (argv_lex dq s).rest (argv_lex dq s).token _ _
          (argv_lex-Takes dq s) (λ lt. (ih (omega (arith, lt, h)) (omega (arith, lt, g))).0),
      same_fill s (argv_lex dq s).match (argv_lex dq s).rest (argv_lex dq s).token _ _
          (argv_lex-Takes dq s) (λ lt. (ih (omega (arith, lt, h)) (omega (arith, lt, g))).1),
    )
