-- ===== src/Conf/Value/Redir.antt =====
-- The redirections that `crinitConfConvToIoRedir` accepts.
use Prim.Native.Nat.{bit_or}
use crinit.Base.{
  ℕ, ◌%◌, ◌≤◌, subst, ◌≡◌, ◌⊎◌, inl, inr, refl, Bool, true, false, List, [], ◌∷◌, Option, none,
  some, arith, Bool-cases, if◌then◌else◌,
}
use crinit.Base.Str.{Str, str_eq, codes}
use crinit.Base.Int.{ℤ, pos}
use crinit.Task.{IoRedir}
use crinit.Conf.StrArr.{Conv, good, bad, undefined, on_conv, Mem, part, conv_to_str_arr}
use crinit.Conf.StrArr.Ascii.{IsAscii, IsDefined, on_conv-IsDefined, conv_to_str_arr-IsDefined}
use crinit.Conf.Value.{
  StrTo, std_fd, is_stdin, no_fd, is_abs_path, o_wronly, redir_kind, redir_mode, mode_of,
  file_redir, redir_target, redir_from, redir_of, conv_to_io_redir,
}

-- A descriptor of a standard stream
abbrev pub IsStd : ℤ → Type 0
IsStd fd = (fd ≡ pos 0) ⊎ (fd ≡ pos 1) ⊎ (fd ≡ pos 2)

-- Either another stream, or an absolute path that is opened to read for the standard input and to write
-- for the others, with permissions only in the mode
pub data Target (r : IoRedir) : Type 0 where
  stream : r.path ≡ none → IsStd r.old_fd → r.fifo ≡ false → Target r
  file :
      (p : Str)
      → r.path ≡ some p
      → is_abs_path p ≡ true
      → r.old_fd ≡ no_fd
      → r.mode ≤ 511
      → (is_stdin r.new_fd ≡ true → r.oflags ≡ 0)
      → (is_stdin r.new_fd ≡ false → r.oflags % 4 ≡ o_wronly)
      → Target r

std_fd-IsStd : (s : Str) (fd : ℤ) → std_fd s ≡ some fd → IsStd fd
unfolding std_fd
std_fd-IsStd s fd = elim (Bool-cases (str_eq s (codes "STDOUT"))) [
  | inl e ↦ rw e (λ h. inr (inl (cc h)))
  | inr e ↦ rw e (elim (Bool-cases (str_eq s (codes "STDERR"))) [
    | inl f ↦ rw f (λ h. inr (inr (cc h)))
    | inr f ↦ rw f (elim (Bool-cases (str_eq s (codes "STDIN"))) [
      | inl g ↦ rw g (λ h. inl (cc h))
      | inr g ↦ rw g (λ h. absurd (cc h))
    ])
  ])
]

mode_of-le : (r : StrTo ℕ) (stale : Bool) (m : ℕ) → mode_of r stale ≡ some m → m ≤ 511
unfolding mode_of
mode_of-le r stale m h = ground (arith, h)

redir_mode-le :
    (strtoul : Str → StrTo ℕ) (stale : Bool) (opts : List Str) (m : ℕ)
    → redir_mode strtoul stale opts ≡ some m
    → m ≤ 511
unfolding redir_mode
redir_mode-le strtoul stale [] m h = ground (arith, h)
redir_mode-le strtoul stale (k ∷ []) m h = ground (arith, h)
redir_mode-le strtoul stale (k ∷ o ∷ opts) m h = mode_of-le (strtoul o) stale m h

of_some : {j k : ℕ × Bool} → some j ≡ some k → j ≡ k
of_some e = cc e

same_kind :
    (j k : ℕ × Bool) → bit_or j.0 o_wronly % 4 ≡ 1 → some j ≡ some k → bit_or k.0 o_wronly % 4 ≡ 1
same_kind j k w e = subst (λ (i : ℕ × Bool). bit_or i.0 o_wronly % 4 ≡ 1) (of_some e) w

redir_kind-writes :
    (opts : List Str) (k : ℕ × Bool) → redir_kind opts ≡ some k → bit_or k.0 o_wronly % 4 ≡ 1
unfolding redir_kind
redir_kind-writes [] k = same_kind (576, false) k refl
redir_kind-writes (s ∷ opts) k = elim (Bool-cases (str_eq s (codes "TRUNCATE"))) [
  | inl e ↦ rw e (same_kind (576, false) k refl)
  | inr e ↦ rw e (elim (Bool-cases (str_eq s (codes "APPEND"))) [
    | inl f ↦ rw f (same_kind (1088, false) k refl)
    | inr f ↦ rw f (elim (Bool-cases (str_eq s (codes "PIPE"))) [
      | inl g ↦ rw g (same_kind (0, true) k refl)
      | inr g ↦ rw g (λ h. absurd (cc h))
    ])
  ])
]

of_good : {r r' : IoRedir} → good r ≡ good r' → r ≡ r'
of_good e = cc e

-- What an accepted redirection satisfies
abbrev pub IsRedir : IoRedir → Type 0
IsRedir r = IsStd r.new_fd × Target r

file_redir-IsRedir :
    (fd : ℤ) (p : Str) (kind : Option (ℕ × Bool)) (mode : Option ℕ) (r : IoRedir)
    → IsStd fd
    → is_abs_path p ≡ true
    → ((k : ℕ × Bool) → kind ≡ some k → bit_or k.0 o_wronly % 4 ≡ 1)
    → ((m : ℕ) → mode ≡ some m → m ≤ 511)
    → file_redir fd p kind mode ≡ good r
    → IsRedir r
unfolding file_redir
file_redir-IsRedir fd p none mode r std abs k m e = absurd (ground (arith, e))
file_redir-IsRedir fd p (some kind) none r std abs k m e = absurd (ground (arith, e))
file_redir-IsRedir fd p (some kind) (some mode) r std abs k m e =
    subst IsRedir (of_good e)
      (std, Target.file p refl abs refl (m mode refl) (λ i. rw i refl) (λ i. rw i (k kind refl)))

redir_target-IsRedir :
    (mem : Mem) (strtoul : Str → StrTo ℕ) (stale : Bool) (fd : ℤ) (old : Option ℤ) (to : Str)
    (opts : List Str) (r : IoRedir)
    → IsStd fd
    → ((o : ℤ) → old ≡ some o → IsStd o)
    → redir_target mem strtoul stale fd old to opts ≡ good r
    → IsRedir r
unfolding redir_target
redir_target-IsRedir mem strtoul stale fd (some old) to opts r std o =
    λ e. subst IsRedir (of_good e) (std, Target.stream refl (o old refl) refl)
redir_target-IsRedir mem strtoul stale fd none to opts r std o =
    elim (Bool-cases (is_abs_path to)) [
      | inr f ↦ rw f (λ e. absurd (ground (arith, e)))
      | inl f ↦ rw f (elim (Bool-cases (mem (1 ∷ []))) [
        | inr g ↦ rw g (λ e. absurd (ground (arith, e)))
        | inl g ↦ rw g (
            file_redir-IsRedir fd to (redir_kind opts) (redir_mode strtoul stale opts) r std f
              (redir_kind-writes opts) (redir_mode-le strtoul stale opts))
      ])
    ]

redir_of-IsRedir :
    (mem : Mem) (strtoul : Str → StrTo ℕ) (stale : Bool) (args : List Str) (r : IoRedir)
    → redir_of mem strtoul stale args ≡ good r
    → IsRedir r
unfolding redir_of redir_from
redir_of-IsRedir mem strtoul stale [] r e = absurd (ground (arith, e))
redir_of-IsRedir mem strtoul stale (a ∷ []) r e = absurd (ground (arith, e))
redir_of-IsRedir mem strtoul stale (a ∷ b ∷ opts) r e = from (std_fd a) refl e
  where
    from :
        (fd : Option ℤ)
        → std_fd a ≡ fd
        → redir_from mem strtoul stale fd b opts ≡ good r
        → IsRedir r
    from none h g = absurd (ground (arith, g))
    from (some fd) h g =
        redir_target-IsRedir mem strtoul stale fd (std_fd b) b opts r (std_fd-IsStd a fd h)
          (std_fd-IsStd b) g

-- A redirection that is accepted is from a standard stream, and leads to a standard stream, or to an
-- absolute path that is opened to read for the standard input and to write for the others, with a mode
-- of permissions only.
pub conv_to_io_redir-IsRedir :
    (mem : Mem) (strtoul : Str → StrTo ℕ) (stale : Bool) (val : Str) (r : IoRedir)
    → conv_to_io_redir mem strtoul stale val ≡ good r
    → IsRedir r
unfolding conv_to_io_redir
conv_to_io_redir-IsRedir mem strtoul stale val r e = from (conv_to_str_arr (part mem 0) true val) e
  where
    from : (c : Conv (List Str)) → on_conv c (redir_of mem strtoul stale) ≡ good r → IsRedir r
    from (good args) g = redir_of-IsRedir mem strtoul stale args r g
    from bad g = absurd (ground (arith, g))
    from undefined g = absurd (ground (arith, g))

if-IsDefined : {A : Type 0} (b : Bool) (c : Conv A) → IsDefined c → IsDefined (if b then c else bad)
if-IsDefined true c h = h
if-IsDefined false c h = tt

file_redir-IsDefined :
    (fd : ℤ) (p : Str) (kind : Option (ℕ × Bool)) (mode : Option ℕ)
    → IsDefined (file_redir fd p kind mode)
unfolding file_redir
file_redir-IsDefined fd p none mode = tt
file_redir-IsDefined fd p (some kind) none = tt
file_redir-IsDefined fd p (some kind) (some mode) = tt

module _ (mem : Mem) (strtoul : Str → StrTo ℕ) (stale : Bool) where
  redir_target-IsDefined :
      (fd : ℤ) (old : Option ℤ) (to : Str) (opts : List Str)
      → IsDefined (redir_target mem strtoul stale fd old to opts)
  unfolding redir_target
  redir_target-IsDefined fd (some old) to opts = tt
  redir_target-IsDefined fd none to opts = if-IsDefined (is_abs_path to) _ (
      if-IsDefined (mem (1 ∷ [])) _
        (file_redir-IsDefined fd to (redir_kind opts) (redir_mode strtoul stale opts)))

  redir_from-IsDefined :
      (fd : Option ℤ) (to : Str) (opts : List Str)
      → IsDefined (redir_from mem strtoul stale fd to opts)
  unfolding redir_from
  redir_from-IsDefined none to opts = tt
  redir_from-IsDefined (some fd) to opts = redir_target-IsDefined fd (std_fd to) to opts

  redir_of-IsDefined : (args : List Str) → IsDefined (redir_of mem strtoul stale args)
  unfolding redir_of
  redir_of-IsDefined [] = tt
  redir_of-IsDefined (a ∷ []) = tt
  redir_of-IsDefined (a ∷ b ∷ opts) = redir_from-IsDefined (std_fd a) b opts

  pub conv_to_io_redir-IsDefined :
      (val : Str) → IsAscii val → IsDefined (conv_to_io_redir mem strtoul stale val)
  unfolding conv_to_io_redir
  conv_to_io_redir-IsDefined val h =
      on_conv-IsDefined (conv_to_str_arr (part mem 0) true val) (redir_of mem strtoul stale)
        (conv_to_str_arr-IsDefined (part mem 0) true val h) redir_of-IsDefined
