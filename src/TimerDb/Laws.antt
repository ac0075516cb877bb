-- ===== src/TimerDb/Laws.antt =====
-- The pool as a count of references to each name.
use crinit.Base.{
  ℕ, zero, suc, ◌+◌, ◌-◌, ◌≤◌, ◌<◌, ◌≡◌, ◌≢◌, refl, sym, ap, subst, Bool-cases, inl, inr, ◌∙◌,
  false, List, [], ◌∷◌, ◌==◌, if◌then◌else◌, length, last_of, init_of, length-init_of, arith, All,
}
use crinit.Base.Str.{Str, str_eq, str_eq_iff, str_eq_refl}
use crinit.World.{PoolTimer, TimerDb}
use crinit.TimerDb.{release, remove_loop}

-- The references to a name, summed over the pool
unfoldable pub refs_of : Str → List PoolTimer → ℕ
refs_of name [] = 0
refs_of name (t ∷ timers) = (if str_eq t.name name then t.refs else 0) + refs_of name timers

abbrev pub IsAbsent : Str → List PoolTimer → Type 0
IsAbsent name timers = All (λ t. t.name ≢ name) timers

-- No two timers have one name, and each has a reference.
abbrev pub AreCounted : List PoolTimer → Type 0
AreCounted [] = Unit {0}
AreCounted (t ∷ timers) = (0 < t.refs) × IsAbsent t.name timers × AreCounted timers

-- The mutex is free, the timers are counted, and they fit behind element 0 of the arrays.
pub record IsWellFormed (pool : TimerDb) : Type 0 where
  pub free : pool.locked ≡ false
  pub counted : AreCounted pool.timers
  pub fits : length pool.timers + 1 ≤ pool.cap

pub refs_of-absent :
    (name : Str) (timers : List PoolTimer) → IsAbsent name timers → refs_of name timers ≡ 0
unfolding refs_of
refs_of-absent name [] h = refl
refs_of-absent name (t ∷ timers) h =
    ground (arith, str_eq_iff t.name name, refs_of-absent name timers h.1)

remove_loop-absent :
    (n : ℕ) (name : Str) (timers : List PoolTimer)
    → IsAbsent name timers
    → remove_loop n name timers ≡ timers
unfolding remove_loop
remove_loop-absent zero name timers h = refl
remove_loop-absent (suc n) name [] h = refl
remove_loop-absent (suc n) name (t ∷ []) h = ground (arith, str_eq_iff t.name name)
remove_loop-absent (suc n) name (t ∷ u ∷ timers) h =
    ground (arith, str_eq_iff t.name name, remove_loop-absent n name (u ∷ timers) h.1)

-- Moving the last timer to the front
module _ (P : PoolTimer → Type 0) where
  All-init_of : (u : PoolTimer) (l : List PoolTimer) → All P (u ∷ l) → All P (init_of u l)
  All-init_of u [] h = tt
  All-init_of u (v ∷ l) h = (h.0, All-init_of v l h.1)

  All-last_of : (u : PoolTimer) (l : List PoolTimer) → All P (u ∷ l) → P (last_of u l)
  All-last_of u [] h = h.0
  All-last_of u (v ∷ l) h = All-last_of v l h.1

refs_of-rotate :
    (name : Str) (u : PoolTimer) (l : List PoolTimer)
    → refs_of name (last_of u l ∷ init_of u l) ≡ refs_of name (u ∷ l)
unfolding refs_of
refs_of-rotate name u [] = refl
refs_of-rotate name u (v ∷ l) = omega (arith, refs_of-rotate name v l)

AreCounted-rotate :
    (u : PoolTimer) (l : List PoolTimer)
    → AreCounted (u ∷ l)
    → AreCounted (last_of u l ∷ init_of u l)
AreCounted-rotate u [] h = h
AreCounted-rotate u (v ∷ l) (pos, absent, rest) =
    let (last_pos, last_absent, init_counted) = AreCounted-rotate v l rest in
    (
      last_pos,
      ((λ e. All-last_of (λ t. t.name ≢ u.name) v l absent (sym e)), last_absent),
      (pos, All-init_of (λ t. t.name ≢ u.name) v l absent, init_counted),
    )

length-rotate :
    (u : PoolTimer) (l : List PoolTimer) → length (last_of u l ∷ init_of u l) ≡ length (u ∷ l)
length-rotate u l = omega (arith, length-init_of u l)

-- What the removal of a reference does to counted timers
abbrev pub Removed : Str → List PoolTimer → List PoolTimer → Type 0
Removed name before after =
    AreCounted after
    × (length after ≤ length before)
    × (refs_of name after ≡ refs_of name before - 1)
    × ((j : Str) → j ≢ name → refs_of j after ≡ refs_of j before)
    × ((j : Str) → IsAbsent j before → IsAbsent j after)

refs_of_head :
    (t : PoolTimer) (timers : List PoolTimer)
    → IsAbsent t.name timers
    → refs_of t.name (t ∷ timers) ≡ t.refs
unfolding refs_of
refs_of_head t timers h = ground (arith, str_eq_refl t.name, refs_of-absent t.name timers h)

refs_of_other :
    (j : Str) (t : PoolTimer) (timers : List PoolTimer)
    → j ≢ t.name
    → refs_of j (t ∷ timers) ≡ refs_of j timers
unfolding refs_of
refs_of_other j t timers d = ground (arith, str_eq_iff t.name j)

-- The timer stays, with one reference less.
Removed-kept :
    (t : PoolTimer) (timers : List PoolTimer)
    → AreCounted (t ∷ timers)
    → 0 < t.refs - 1
    → Removed t.name (t ∷ timers) (release t ∷ timers)
Removed-kept t timers h pos = (
  (pos, h.1, h.2),
  omega arith,
  omega (arith, refs_of_head t timers h.1, refs_of_head (release t) timers h.1),
  λ j d. refs_of_other j (release t) timers d ∙ sym (refs_of_other j t timers d),
  λ j a. a,
)

-- The timer had its last reference, and the last timer takes its place.
Removed-moved :
    (t u : PoolTimer) (timers : List PoolTimer)
    → AreCounted (t ∷ u ∷ timers)
    → t.refs ≡ 1
    → Removed t.name (t ∷ u ∷ timers) (last_of u timers ∷ init_of u timers)
Removed-moved t u timers h one = (
  AreCounted-rotate u timers h.2,
  omega (arith, length-rotate u timers),
  omega (
    arith,
    refs_of-rotate t.name u timers,
    refs_of-absent t.name (u ∷ timers) h.1,
    refs_of_head t (u ∷ timers) h.1,
  ),
  λ j d. refs_of-rotate j u timers ∙ sym (refs_of_other j t (u ∷ timers) d),
  λ j a. (All-last_of (λ v. v.name ≢ j) u timers a.1, All-init_of (λ v. v.name ≢ j) u timers a.1),
)

Removed-last : (t : PoolTimer) → AreCounted (t ∷ []) → t.refs ≡ 1 → Removed t.name (t ∷ []) []
Removed-last t h one = (
  tt,
  omega arith,
  omega (arith, refs_of_head t [] tt, refs_of-absent t.name [] tt),
  λ j d. sym (refs_of_other j t [] d),
  λ j a. tt,
)

-- Another timer stands in front.
Removed-behind :
    (name : Str) (t : PoolTimer) (before after : List PoolTimer)
    → t.name ≢ name
    → AreCounted (t ∷ before)
    → Removed name before after
    → Removed name (t ∷ before) (t ∷ after)
unfolding refs_of
Removed-behind name t before after d h r = (
  (h.0, r.4 t.name h.1, r.0),
  omega (arith, r.1),
  ground (arith, str_eq_iff t.name name, r.2),
  λ j e. ap (λ k. (if str_eq t.name j then t.refs else 0) + k) (r.3 j e),
  λ j a. (a.0, r.4 j a.1),
)

pub remove_loop-Removed :
    (n : ℕ) (name : Str) (timers : List PoolTimer)
    → length timers ≤ n
    → AreCounted timers
    → Removed name timers (remove_loop n name timers)
unfolding remove_loop
remove_loop-Removed zero name [] le h =
    (tt, omega arith, omega (arith, refs_of-absent name [] tt), (λ j d. refl), λ j a. tt)
remove_loop-Removed zero name (t ∷ timers) le h = absurd (omega arith)
remove_loop-Removed (suc n) name [] le h =
    (tt, omega arith, omega (arith, refs_of-absent name [] tt), (λ j d. refl), λ j a. tt)
remove_loop-Removed (suc n) name (t ∷ []) le h = elim (Bool-cases (str_eq t.name name)) [
  | inl e ↦ elim (Bool-cases (t.refs - 1 == 0)) [
    | inl z ↦
        rw (e, z)
          (subst (λ k. Removed k (t ∷ []) []) ((str_eq_iff t.name name).0 e)
            (Removed-last t h (ground arith)))
    | inr p ↦
        rw (e, p)
          (subst (λ k. Removed k (t ∷ []) (release t ∷ [])) ((str_eq_iff t.name name).0 e)
            (Removed-kept t [] h (ground arith)))
  ]
  | inr e ↦ rw e (
      Removed-behind name t [] [] (ground (arith, str_eq_iff t.name name)) h
        (tt, omega arith, omega (arith, refs_of-absent name [] tt), (λ j d. refl), λ j a. tt))
]
remove_loop-Removed (suc n) name (t ∷ u ∷ timers) le h = elim (Bool-cases (str_eq t.name name)) [
  | inl e ↦
      let same : t.name ≡ name = (str_eq_iff t.name name).0 e in
      let gone : IsAbsent name (u ∷ timers) = subst (λ k. IsAbsent k (u ∷ timers)) same h.1 in
      elim (Bool-cases (t.refs - 1 == 0)) [
        | inl z ↦
            rw
              (
                e,
                z,
                remove_loop-absent n name (init_of u timers)
                    (All-init_of (λ v. v.name ≢ name) u timers gone),
              )
              (subst (λ k. Removed k (t ∷ u ∷ timers) (last_of u timers ∷ init_of u timers)) same
                (Removed-moved t u timers h (ground arith)))
        | inr p ↦
            rw (e, p, remove_loop-absent n name (u ∷ timers) gone)
              (subst (λ k. Removed k (t ∷ u ∷ timers) (release t ∷ u ∷ timers)) same
                (Removed-kept t (u ∷ timers) h (ground arith)))
      ]
  | inr e ↦ rw e (
      Removed-behind name t (u ∷ timers) _ (ground (arith, str_eq_iff t.name name)) h
        (remove_loop-Removed n name (u ∷ timers) (omega arith) h.2))
]
