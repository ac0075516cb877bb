-- ===== src/Command/Notify/Laws.antt =====
-- What the arguments of `NOTIFY` are taken for.
use crinit.Base.{
  ◌≡◌, refl, ap, ◌∙◌, Bool, true, false, ◌&&◌, [], ◌∷◌, ◌++◌, some, ◌==◌, if◌then◌else◌, length,
  All, arith,
}
use crinit.Base.Str.{Str, codes}
use crinit.Base.Int.{ℤ}
use crinit.Rtim.{strncmp_eq}
use crinit.Command.Notify.{Notice, split_at_equals, take_notice, read_notice}

-- The key is the beginning of the name.
abbrev pub is_prefix : Str → Str → Bool
is_prefix [] name = true
is_prefix (x ∷ key) [] = false
is_prefix (x ∷ key) (y ∷ name) = x == y && is_prefix key name

split_at_equals-append :
    (key value : Str)
    → All (λ x. (x == 61) ≡ false) key
    → split_at_equals (key ++ 61 ∷ value) ≡ some (length key, value)
unfolding split_at_equals
split_at_equals-append [] value h = refl
split_at_equals-append (x ∷ key) value h = ground (arith, h.0, split_at_equals-append key value h.1)

strncmp_eq-is_prefix :
    (key rest name : Str) → strncmp_eq (length key) (key ++ rest) name ≡ is_prefix key name
unfolding strncmp_eq
strncmp_eq-is_prefix [] rest name = refl
strncmp_eq-is_prefix (x ∷ key) rest [] = refl
strncmp_eq-is_prefix (x ∷ key) rest (y ∷ name) =
    ap (λ b. x == y && b) (strncmp_eq-is_prefix key rest name)

-- An argument of the form key=value, with no other = in the key, sets the pid, the ready flag and the
-- stopping flag to the number of the value if the key is a beginning of MAINPID, of READY and of
-- STOPPING, be it the empty one, and leaves them as they are otherwise.
pub read_notice-is_prefix :
    (strtol : Str → ℤ) (key value : Str) (n : Notice)
    → All (λ x. (x == 61) ≡ false) key
    → read_notice strtol (key ++ 61 ∷ value) n ≡ record {
      pid = if is_prefix key (codes "MAINPID") then strtol value else n.pid;
      ready = if is_prefix key (codes "READY") then strtol value else n.ready;
      stopping = if is_prefix key (codes "STOPPING") then strtol value else n.stopping;
    }
unfolding read_notice
read_notice-is_prefix strtol key value n h =
    ap (take_notice strtol (key ++ 61 ∷ value) n) (split_at_equals-append key value h)
    ∙ rw
        (
          strncmp_eq-is_prefix key (61 ∷ value) (codes "MAINPID"),
          strncmp_eq-is_prefix key (61 ∷ value) (codes "READY"),
          strncmp_eq-is_prefix key (61 ∷ value) (codes "STOPPING"),
        )
        refl
