-- ===== src/Conf/EnvVar/RoundTrip.antt =====
-- A variable that is written as `KEY "value"` is set to its value.
use crinit.Base.{
  ℕ, zero, suc, ◌-◌, ◌<◌, ◌≡◌, refl, sym, subst, true, false, [], ◌∷◌, ◌++◌, none, some, ◌==◌,
  if◌then◌else◌, length, length-append, All, arith,
}
use crinit.Base.Str.{Str}
use crinit.EnvSet.{EnvSet, put, has_equals}
use crinit.EnvSet.Laws.{IsWellFormed, padded_positive, Put, put-Put}
use crinit.Conf.Lex.{
  backslash, starts_name, in_name, scan_name, last_quote, skip_blanks, env_outer_lex,
}
use crinit.Conf.StrArr.{Mem, part}
use crinit.Conf.StrArr.RoundTrip.{IsText, c_string-IsText}
use crinit.Conf.EnvVar.{
  is_set, put_member, put_expanded, split_member, expand, conv_to_env_set_member,
}

-- Dollars and backslashes are written as escape sequences.
unfoldable pub protected : Str → Str
protected [] = []
protected (c ∷ s) =
    if c == b'$'
    then backslash ∷ b'$' ∷ protected s
    else if c == backslash
    then backslash ∷ backslash ∷ protected s
    else c ∷ protected s

expand-protected :
    (mem : Mem) (es : EnvSet) (n : ℕ) (v : Str)
    → length (protected v) < n
    → expand mem es n (protected v) ≡ some v
unfolding expand protected
expand-protected mem es zero v h = absurd (omega (arith, h))
expand-protected mem es (suc n) [] h = refl
expand-protected mem es (suc n) (c ∷ v) h = ground (arith, expand-protected mem es n v)

last_quote-end : (v : Str) → last_quote (v ++ b'"' ∷ []) ≡ some (v, [])
unfolding last_quote
last_quote-end [] = refl
last_quote-end (c ∷ v) = rw (last_quote-end v) refl

scan_name-name :
    (k r : Str) → All (λ c. in_name c ≡ true) k → scan_name (k ++ b' ' ∷ r) ≡ (k, b' ' ∷ r)
unfolding scan_name
scan_name-name [] r a = refl
scan_name-name (c ∷ k) r a = rw (a.0, scan_name-name k r a.1) refl

-- A name of a variable in a configuration
abbrev pub IsName : Str → Type 0
IsName [] = ⊥
IsName (c ∷ k) = (starts_name c ≡ true) × All (λ d. in_name d ≡ true) k

-- A name, a blank, and the value in quotes
unfoldable pub member : Str → Str → Str
unfolding protected
member key v = key ++ b' ' ∷ b'"' ∷ (protected v ++ b'"' ∷ [])

skip_blanks-quote : (s : Str) → skip_blanks (b'"' ∷ s) ≡ ([], b'"' ∷ s)
unfolding skip_blanks
skip_blanks-quote s = refl

split_member-member :
    (mem : Mem) (n : ℕ) (c : ℕ) (k v : Str)
    → mem (0 ∷ []) ≡ true
    → mem (1 ∷ []) ≡ true
    → IsName (c ∷ k)
    → split_member mem (suc (suc (suc (suc n)))) (member (c ∷ k) v) (none, none)
      ≡ some (c ∷ k, protected v)
unfolding split_member member env_outer_lex
split_member-member mem n c k v m0 m1 name =
    rw
      (
        name.0,
        scan_name-name k (b'"' ∷ (protected v ++ b'"' ∷ [])) name.1,
        m0,
        last_quote-end (protected v),
        m1,
      )
      refl

length-member :
    (c : ℕ) (k v : Str)
    → length (member (c ∷ k) v) ≡ suc (suc (suc (length (member (c ∷ k) v) - 3)))
unfolding member
length-member c k v = omega (
  arith,
  length-append k (b' ' ∷ b'"' ∷ (protected v ++ b'"' ∷ [])),
  length-append (protected v) (b'"' ∷ []),
)

pub starts-in_name : (d : ℕ) → starts_name d ≡ true → in_name d ≡ true
unfolding in_name
starts-in_name d h = rw h refl

pub name-no_equals : (k : Str) → All (λ d. in_name d ≡ true) k → has_equals k ≡ false
unfolding has_equals in_name starts_name
name-no_equals [] a = refl
name-no_equals (c ∷ k) a = ground (arith, a.0, name-no_equals k a.1)

put_member-protected :
    (mem : Mem) (es : EnvSet) (key v : Str)
    → mem (2 ∷ []) ≡ true
    → IsText v
    → put_member mem es (some (key, protected v)) ≡ put (λ i. mem (4 ∷ i ∷ [])) es key v
unfolding put_member put_expanded
put_member-protected mem es key v m2 t =
    rw
      (
        m2,
        expand-protected (part mem 3) es (suc (length (protected v))) v (omega arith),
        c_string-IsText v t,
      )
      refl

IsWellFormed-is_set : (es : EnvSet) → IsWellFormed es → is_set es.envp es.alloc_sz ≡ true
unfolding is_set
IsWellFormed-is_set es wf =
    rw wf.held (ground (arith, wf.sized, padded_positive wf.slots wf.padded))

conv-put :
    (mem : Mem) (es : EnvSet) (c : ℕ) (k v : Str)
    → mem (0 ∷ []) ≡ true
    → mem (1 ∷ []) ≡ true
    → mem (2 ∷ []) ≡ true
    → IsWellFormed es
    → IsName (c ∷ k)
    → IsText v
    → conv_to_env_set_member mem es (member (c ∷ k) v) ≡ put (λ i. mem (4 ∷ i ∷ [])) es (c ∷ k) v
unfolding conv_to_env_set_member
conv-put mem es c k v m0 m1 m2 wf name t = rw (IsWellFormed-is_set es wf) (
    rw (length-member c k v) (
      rw (split_member-member mem (length (member (c ∷ k) v) - 3) c k v m0 m1 name)
        (put_member-protected mem es (c ∷ k) v m2 t)))

-- On a well-formed set and while its own three allocations succeed, the text of a name and a value in
-- quotes, with dollars and backslashes escaped, sets the name to the value: if the call succeeds, the
-- name is bound to the value and every other name is as before, and if it fails, every name is.
pub conv_to_env_set_member-Put :
    (mem : Mem) (es : EnvSet) (key v : Str)
    → mem (0 ∷ []) ≡ true
    → mem (1 ∷ []) ≡ true
    → mem (2 ∷ []) ≡ true
    → IsWellFormed es
    → IsName key
    → IsText v
    → Put es key v (conv_to_env_set_member mem es (member key v))
conv_to_env_set_member-Put mem es [] v m0 m1 m2 wf name t = absurd name
conv_to_env_set_member-Put mem es (c ∷ k) v m0 m1 m2 wf name t =
    subst (Put es (c ∷ k) v) (sym (conv-put mem es c k v m0 m1 m2 wf name t)) (
      put-Put (λ i. mem (4 ∷ i ∷ [])) es (c ∷ k) v wf
        (name-no_equals (c ∷ k) (starts-in_name c name.0, name.1)))
