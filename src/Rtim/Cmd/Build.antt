-- ===== src/Rtim/Cmd/Build.antt =====
-- The building of a command: each pointer points to its argument's copy, inside the memory.
use mathlib.Core.List.{append_assoc}
use mathlib.Core.Path.{subst₂}
use crinit.Base.{
  ℕ, zero, suc, ◌+◌, ◌≡◌, refl, ap, ap₂, ◌∙◌, Bool, true, false, ◌==◌, if◌then◌else◌, some, List,
  [], ◌∷◌, ◌++◌, length, map, arith, All, length-append,
}
use crinit.Base.Str.{Str}
use crinit.Rtim.{RtimOp}
use crinit.Rtim.Cmd.{Built, sum_str_size, copy_args, build_rtim_cmd}

-- The C string at an offset
abbrev pub bytes_at : ℕ → List ℕ → List ℕ
bytes_at n [] = []
bytes_at zero (x ∷ l) = x ∷ l
bytes_at (suc n) (x ∷ l) = bytes_at n l

abbrev pub until_zero : List ℕ → Str
until_zero [] = []
until_zero (x ∷ l) = let rest = until_zero l in if x == 0 then [] else x ∷ rest

abbrev pub string_at : List ℕ → ℕ → Str
string_at l n = until_zero (bytes_at n l)

-- A C string has no 0.
abbrev pub IsString : Str → Type 0
IsString s = All (λ x. (x == 0) ≡ false) s

length-copy_args : (r : ℕ) (args : List Str) → length (copy_args r args).0 ≡ sum_str_size args
unfolding copy_args sum_str_size
length-copy_args r [] = refl
length-copy_args r (a ∷ args) = omega (
  arith,
  length-append a (0 ∷ (copy_args (r + (length a + 1)) args).0),
  length-copy_args (r + (length a + 1)) args,
)

length-pointers : (r : ℕ) (args : List Str) → length (copy_args r args).1 ≡ length args
unfolding copy_args
length-pointers r [] = refl
length-pointers r (a ∷ args) = ap suc (length-pointers (r + (length a + 1)) args)

bytes_at-append : (pre l : List ℕ) → bytes_at (length pre) (pre ++ l) ≡ l
bytes_at-append [] [] = refl
bytes_at-append [] (x ∷ l) = refl
bytes_at-append (x ∷ pre) l = bytes_at-append pre l

until_zero-append : (a l : List ℕ) → IsString a → until_zero (a ++ 0 ∷ l) ≡ a
until_zero-append [] l h = refl
until_zero-append (x ∷ a) l h = ground (arith, h.0, until_zero-append a l h.1)

-- Behind the bytes that are copied already
string_at-copy_args :
    (pre : List ℕ) (args : List Str)
    → All IsString args
    → map (string_at (pre ++ (copy_args (length pre) args).0)) (copy_args (length pre) args).1
      ≡ args
unfolding copy_args
string_at-copy_args pre [] h = refl
string_at-copy_args pre (a ∷ args) h =
    ap₂ (λ x l. x ∷ l)
      (ap until_zero (bytes_at-append pre (a ++ 0 ∷ rest)) ∙ until_zero-append a rest h.0)
      (subst₂ (λ l n. map (string_at l) (copy_args n args).1 ≡ args) joined longer
        (string_at-copy_args (pre ++ (a ++ 0 ∷ [])) args h.1))
  where
    rest : List ℕ
    rest = (copy_args (length pre + (length a + 1)) args).0

    longer : length (pre ++ (a ++ 0 ∷ [])) ≡ length pre + (length a + 1)
    longer = omega (arith, length-append pre (a ++ 0 ∷ []), length-append a (0 ∷ []))

    joined :
        (pre ++ (a ++ 0 ∷ [])) ++ (copy_args (length (pre ++ (a ++ 0 ∷ []))) args).0
        ≡ pre ++ (a ++ 0 ∷ rest)
    joined =
        ap (λ n. (pre ++ (a ++ 0 ∷ [])) ++ (copy_args n args).0) longer
        ∙ append_assoc pre (a ++ 0 ∷ []) rest
        ∙ ap (λ l. pre ++ l) (append_assoc a (0 ∷ []) rest)

-- A command that is built of C strings has as many pointers as arguments; its bytes are exactly the
-- memory that was asked for, and the string at each pointer is its argument. The two allocations
-- succeed.
pub build_rtim_cmd-string_at :
    (alloc : ℕ → Bool) (op : RtimOp) (args : List Str)
    → alloc 0 ≡ true
    → alloc 1 ≡ true
    → All IsString args
    → (c : Built) × (build_rtim_cmd alloc op args ≡ some c)
      × (length c.backing ≡ c.size)
      × (length c.pointers ≡ c.argc)
      × (map (string_at c.backing) c.pointers ≡ args)
unfolding build_rtim_cmd
build_rtim_cmd-string_at alloc op args a b h = (
  record {
    op = op;
    argc = length args;
    size = sum_str_size args;
    backing = (copy_args 0 args).0;
    pointers = (copy_args 0 args).1;
  },
  ground (arith, a, b),
  length-copy_args 0 args,
  length-pointers 0 args,
  string_at-copy_args [] args h,
)
