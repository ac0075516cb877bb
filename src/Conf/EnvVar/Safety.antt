-- ===== src/Conf/EnvVar/Safety.antt =====
-- No text makes `crinitConfConvToEnvSetMember` leave the array of the set.
use crinit.Base.{
  ℕ, zero, suc, ◌≡◌, refl, Bool, true, false, [], ◌∷◌, Option, none, some, ◌==◌, length, All,
  Bool-cases, inl, inr, err,
}
use crinit.Base.Str.{Str}
use crinit.World.Laws.{absurd_test}
use crinit.EnvSet.{EnvSet, Outcome, done, has_equals}
use crinit.EnvSet.Laws.{IsWellFormed, Put, put-Put}
use crinit.Conf.Lex.{
  Token, err, end, env_key, env_val, wspc, is_blank, starts_name, in_name, scan_name, last_quote,
  quoted_val, env_outer_lex,
}
use crinit.Conf.StrArr.{Mem, c_string}
use crinit.Conf.EnvVar.{
  Found, both, outer_token, split_member, put_expanded, put_member, is_set, conv_to_env_set_member,
}
use crinit.Conf.EnvVar.RoundTrip.{starts-in_name, name-no_equals}

scan_name-in_name : (s : Str) → All (λ d. in_name d ≡ true) (scan_name s).0
unfolding scan_name
scan_name-in_name [] = tt
scan_name-in_name (c ∷ s) = elim (Bool-cases (in_name c)) [
  | inl e ↦ rw e (e, scan_name-in_name s)
  | inr e ↦ rw e tt
]

abbrev is_key : Token → Bool
is_key env_key = true
is_key _ = false

quoted_val-ne-key : (s : Str) (o : Option (Str × Str)) → is_key (quoted_val s o).token ≡ false
unfolding quoted_val
quoted_val-ne-key s none = refl
quoted_val-ne-key s (some p) = refl

-- A key has no '='.
env_outer_lex-key :
    (s : Str) → is_key (env_outer_lex s).token ≡ true → has_equals (env_outer_lex s).match ≡ false
unfolding env_outer_lex
env_outer_lex-key [] = λ h. absurd (cc h)
env_outer_lex-key (c ∷ s) = elim (Bool-cases (starts_name c)) [
  | inl e ↦
      rw e (λ h. name-no_equals (c ∷ (scan_name s).0) (starts-in_name c e, scan_name-in_name s))
  | inr e ↦ rw e (elim (Bool-cases (is_blank c)) [
    | inl f ↦ rw f (λ h. absurd (cc h))
    | inr f ↦ rw f (elim (Bool-cases (c == b'"')) [
      | inl g ↦ rw g (λ h. absurd (absurd_test h (quoted_val-ne-key s (last_quote s))))
      | inr g ↦ rw g (λ h. absurd (cc h))
    ])
  ])
]

abbrev KeyIsPlain : Option Str → Type 0
KeyIsPlain none = Unit
KeyIsPlain (some k) = has_equals k ≡ false

abbrev ResultIsPlain : Option (Str × Str) → Type 0
ResultIsPlain none = Unit
ResultIsPlain (some p) = has_equals p.0 ≡ false

outer_token-plain :
    (mem : Mem) (t : Token) (m : Str) (found : Found) (step : Found → Option (Str × Str))
    → (is_key t ≡ true → has_equals m ≡ false)
    → KeyIsPlain found.0
    → ((f : Found) → KeyIsPlain f.0 → ResultIsPlain (step f))
    → ResultIsPlain (outer_token mem t m found step)
unfolding outer_token both
outer_token-plain mem env_key m (none, val) step k p h = elim (Bool-cases (mem (0 ∷ []))) [
  | inl e ↦ rw e (h (some m, val) (k refl))
  | inr e ↦ rw e tt
]
outer_token-plain mem env_key m (some key, val) step k p h = tt
outer_token-plain mem env_val m (none, val) step k p h = tt
outer_token-plain mem env_val m (some key, none) step k p h = elim (Bool-cases (mem (1 ∷ []))) [
  | inl e ↦ rw e (h (some key, some m) p)
  | inr e ↦ rw e tt
]
outer_token-plain mem env_val m (some key, some val) step k p h = tt
outer_token-plain mem wspc m found step k p h = h found p
outer_token-plain mem end m (none, none) step k p h = tt
outer_token-plain mem end m (none, some val) step k p h = tt
outer_token-plain mem end m (some key, none) step k p h = tt
outer_token-plain mem end m (some key, some val) step k p h = p
outer_token-plain mem _ m found step k p h = tt

split_member-plain :
    (mem : Mem) (n : ℕ) (s : Str) (found : Found)
    → KeyIsPlain found.0
    → ResultIsPlain (split_member mem n s found)
unfolding split_member
split_member-plain mem zero s found p = tt
split_member-plain mem (suc n) s found p =
    outer_token-plain mem (env_outer_lex s).token (env_outer_lex s).match found
      (split_member mem n (env_outer_lex s).rest) (env_outer_lex-key s) p
      (split_member-plain mem n (env_outer_lex s).rest)

-- What a call leaves of a set: it is well formed, and at most one variable has another value.
abbrev pub SetsOne : EnvSet → Outcome → Type 0
SetsOne es o = (key : Str) × (val : Str) × Put es key val o

unchanged : (es : EnvSet) → IsWellFormed es → SetsOne es (done err es)
unchanged es wf = ([], [], (wf, λ j h. refl))

put_expanded-SetsOne :
    (mem : Mem) (es : EnvSet) (key : Str) (v : Option Str)
    → IsWellFormed es
    → has_equals key ≡ false
    → SetsOne es (put_expanded (λ i. mem (4 ∷ i ∷ [])) es key v)
unfolding put_expanded
put_expanded-SetsOne mem es key none wf plain = unchanged es wf
put_expanded-SetsOne mem es key (some v) wf plain =
    (key, c_string v, put-Put (λ i. mem (4 ∷ i ∷ [])) es key (c_string v) wf plain)

put_member-SetsOne :
    (mem : Mem) (es : EnvSet) (p : Option (Str × Str))
    → IsWellFormed es
    → ResultIsPlain p
    → SetsOne es (put_member mem es p)
unfolding put_member
put_member-SetsOne mem es none wf plain = unchanged es wf
put_member-SetsOne mem es (some (key, v)) wf plain = elim (Bool-cases (mem (2 ∷ []))) [
  | inl e ↦ rw e (put_expanded-SetsOne mem es key _ wf plain)
  | inr e ↦ rw e (unchanged es wf)
]

-- Whatever the text is and whichever allocations fail, on a well-formed set the call stays inside the
-- array, leaves a well-formed set, and changes the value of at most one variable; if it reports an error,
-- of none.
pub conv_to_env_set_member-SetsOne :
    (mem : Mem) (es : EnvSet) (text : Str)
    → IsWellFormed es
    → SetsOne es (conv_to_env_set_member mem es text)
unfolding conv_to_env_set_member
conv_to_env_set_member-SetsOne mem es text wf = elim (Bool-cases (is_set es.envp es.alloc_sz)) [
  | inl e ↦ rw e (
      put_member-SetsOne mem es (split_member mem (suc (length text)) text (none, none)) wf
        (split_member-plain mem (suc (length text)) text (none, none) tt))
  | inr e ↦ rw e (unchanged es wf)
]
