-- ===== src/World/Laws.antt =====
-- Total correctness of calls, and what a call leaves alone.
use mathlib.Core.Path.{subst₂}
use crinit.Base.{◌≡◌, refl, sym, ap, subst, ◌∙◌, Bool, true, false, Status, ok, arith}
use crinit.World.{World, Outcome, ret, blocked, fault, M, ◌>>=◌, lock_db, branch, on_status}

-- The call returns, neither waiting forever nor touching freed memory, and its result and the state
-- satisfy the predicate.
abbrev pub Ends : {A : Type 0} → (A → World → Type 0) → Outcome A → Type 0
Ends Q (ret a w) = Q a w
Ends Q blocked = ⊥
Ends Q fault = ⊥

pub Ends-bind :
    {A B : Type 0} (P : A → World → Type 0) (Q : B → World → Type 0) (m : M A) (f : A → M B)
    (w : World)
    → Ends P (m w)
    → ((a : A) (w' : World) → P a w' → Ends Q (f a w'))
    → Ends Q ((m >>= f) w)
Ends-bind {A} P Q m f w h k = go (m w) h
  where
    go :
        (o : Outcome A)
        → Ends P o
        → Ends Q (elim o [ ret a w' ↦ f a w' | blocked ↦ blocked | fault ↦ fault ])
    go (ret a w') p = k a w' p
    go blocked p = absurd p
    go fault p = absurd p

pub Ends-weaken :
    {A : Type 0} (P Q : A → World → Type 0) (o : Outcome A)
    → Ends P o
    → ((a : A) (w' : World) → P a w' → Q a w')
    → Ends Q o
Ends-weaken P Q (ret a w) p k = k a w p
Ends-weaken P Q blocked p k = absurd p
Ends-weaken P Q fault p k = absurd p

-- Only the pool of timers may differ.
pub record SameButPool (w w' : World) : Type 0 where
  pub os : w'.os ≡ w.os
  pub db : w'.db ≡ w.db
  pub procs : w'.procs ≡ w.procs
  pub use_syslog : w'.use_syslog ≡ w.use_syslog
  pub threads : w'.threads ≡ w.threads

pub SameButPool-refl : (w : World) → SameButPool w w
SameButPool-refl w = record {
  os = refl;
  db = refl;
  procs = refl;
  use_syslog = refl;
  threads = refl;
}

pub SameButPool-trans : {u v w : World} → SameButPool u v → SameButPool v w → SameButPool u w
SameButPool-trans a b = record {
  os = b.os ∙ a.os;
  db = b.db ∙ a.db;
  procs = b.procs ∙ a.procs;
  use_syslog = b.use_syslog ∙ a.use_syslog;
  threads = b.threads ∙ a.threads;
}

-- The state with the database locked
abbrev pub hold_db : World → World
hold_db w = record w { db = record (w.db) { locked = true } }

pub lock_db-ok :
    (w : World) → w.os.db_lock_error ≡ false → w.db.locked ≡ false → lock_db w ≡ ret ok (hold_db w)
lock_db-ok w e f = ground (arith, e, f)

-- A call that first locks the database
pub Ends-lock_db :
    {B : Type 0} (Q : B → World → Type 0) (f : Status → M B) (w : World)
    → w.os.db_lock_error ≡ false
    → w.db.locked ≡ false
    → Ends Q (f ok (hold_db w))
    → Ends Q ((lock_db >>= f) w)
Ends-lock_db Q f w e free h =
    Ends-bind (λ s v. (s ≡ ok) × (v ≡ hold_db w)) Q lock_db f w
      (subst (Ends (λ s v. (s ≡ ok) × (v ≡ hold_db w))) (sym (lock_db-ok w e free)) (refl, refl))
      (λ s v p. subst₂ (λ a b. Ends Q (f a b)) (sym p.0) (sym p.1) h)

-- Both branches of a test
pub Ends-branch :
    {B : Type 0} (Q : B → World → Type 0) (b : Bool) (m k : M B) (w : World)
    → (b ≡ true → Ends Q (m w))
    → (b ≡ false → Ends Q (k w))
    → Ends Q (branch b m k w)
Ends-branch Q true m k w h g = h refl
Ends-branch Q false m k w h g = g refl

pub absurd_test : {b : Bool} → b ≡ true → b ≡ false → ⊥
absurd_test e f = ground (arith, e, f)

pub Ends-on_status :
    {B : Type 0} (Q : B → World → Type 0) (m k : M B) (s : Status) (w : World)
    → s ≡ ok
    → Ends Q (m w)
    → Ends Q (on_status s m k w)
Ends-on_status Q m k s w e h = subst (λ a. Ends Q (on_status a m k w)) (sym e) h

-- A call that locks the database waits while it is locked.
pub lock_db-blocked :
    {B : Type 0} (f : Status → M B) (w : World)
    → w.os.db_lock_error ≡ false
    → w.db.locked ≡ true
    → (lock_db >>= f) w ≡ blocked
lock_db-blocked f w e held = ground (arith, e, held)

-- A call whose first part is known
pub bind-ret :
    {A B : Type 0} (m : M A) (f : A → M B) (w v : World) (a : A)
    → m w ≡ ret a v
    → (m >>= f) w ≡ f a v
bind-ret {A} {B} m f w v a e =
    ap (λ o. elim o as (λ _. Outcome B) [ ret b u ↦ f b u | blocked ↦ blocked | fault ↦ fault ]) e

-- A call that ends is one result and one state.
pub Ends-ret :
    {A : Type 0} (Q : A → World → Type 0) (o : Outcome A)
    → Ends Q o
    → (a : A) × (w : World) × (o ≡ ret a w) × Q a w
Ends-ret Q (ret a w) h = (a, w, refl, h)
Ends-ret Q blocked h = absurd h
Ends-ret Q fault h = absurd h

pub bind-blocked :
    {A B : Type 0} (m : M A) (f : A → M B) (w : World) → m w ≡ blocked → (m >>= f) w ≡ blocked
bind-blocked {A} {B} m f w e =
    ap (λ o. elim o as (λ _. Outcome B) [ ret b u ↦ f b u | blocked ↦ blocked | fault ↦ fault ]) e
