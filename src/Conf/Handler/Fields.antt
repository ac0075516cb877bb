-- ===== src/Conf/Handler/Fields.antt =====
-- The texts of dependencies and features.
use crinit.Base.{ℕ, ◌≡◌, refl, ap, ◌∙◌, false, [], ◌∷◌, ◌++◌, none, some, ◌==◌, All, ==_iff, arith}
use crinit.Base.Str.{Str, str_eq, codes}
use crinit.Conf.Text.{until, skip, strtok, split_at, is_prefix}
use crinit.Conf.Handler.{placed, dep_of, state_of_event, prv_of}

abbrev pub Without : ℕ → Str → Type 0
Without c s = All (λ x. (x == c) ≡ false) s

until-delimiter : (c : ℕ) (s r : Str) → Without c s → until c (s ++ c ∷ r) ≡ (s, r)
unfolding until
until-delimiter c [] r h = rw ((==_iff c c).1 refl) refl
until-delimiter c (x ∷ s) r h = rw (h.0, until-delimiter c s r h.1) refl

until-end : (c : ℕ) (s : Str) → Without c s → until c s ≡ (s, [])
unfolding until
until-end c [] h = refl
until-end c (x ∷ s) h = rw (h.0, until-end c s h.1) refl

skip-first : (c x : ℕ) (s : Str) → (x == c) ≡ false → skip c (x ∷ s) ≡ x ∷ s
unfolding skip
skip-first c x s h = rw h refl

strtok-until : (c x : ℕ) (s : Str) → (x == c) ≡ false → strtok c (x ∷ s) ≡ some (until c (x ∷ s))
unfolding strtok
strtok-until c x s h = rw (skip-first c x s h, strtok) refl

-- A dependency on a name without ':' and an event without blanks, neither of them empty, is read back
-- from its text.
pub dep_of-text :
    (n e : ℕ) (name event : Str)
    → Without b':' (n ∷ name)
    → Without b' ' (e ∷ event)
    → dep_of ((n ∷ name) ++ b':' ∷ e ∷ event)
      ≡ placed (record { name = n ∷ name; event = e ∷ event })
unfolding dep_of
dep_of-text n e name event h k =
    rw
      (
        strtok-until b':' n (name ++ b':' ∷ e ∷ event) h.0
            ∙ ap some (until-delimiter b':' (n ∷ name) (e ∷ event) h),
        strtok-until b' ' e event k.0 ∙ ap some (until-end b' ' (e ∷ event) k),
        dep_of,
      )
      (ground (arith, h.0, k.0))

split_at-delimiter : (c : ℕ) (s r : Str) → Without c s → split_at c (s ++ c ∷ r) ≡ some (s, r)
unfolding split_at
split_at-delimiter c [] r h = rw ((==_iff c c).1 refl) refl
split_at-delimiter c (x ∷ s) r h = rw (h.0, split_at-delimiter c s r h.1) refl

-- No task can provide a feature in the state "wait-notified": "wait" is compared with one byte too many.
pub prv_of-wait_notified :
    (name : Str) → Without b':' name → prv_of (name ++ b':' ∷ codes "wait-notified") ≡ none
unfolding prv_of state_of_event is_prefix str_eq
prv_of-wait_notified name h =
    rw (split_at-delimiter b':' name (codes "wait-notified") h, prv_of) refl
