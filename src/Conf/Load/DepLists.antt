-- ===== src/Conf/Load/DepLists.antt =====
-- The handlers of DEPENDS and TRIGGER return.
use crinit.Base.{
  ℕ, suc, ◌≡◌, sym, subst, inl, inr, Bool, true, false, not, List, [], ◌∷◌, Option, none, some,
  ◌==◌, length, All, Bool-cases, arith,
}
use crinit.Base.Str.{Str, str_eq}
use crinit.Task.{Dep, timer_dep_name}
use crinit.TimerDb.{add_timer}
use crinit.TimerDb.Run.{add_timer-refs_of}
use crinit.World.{World, M, return, branch}
use crinit.World.Laws.{Ends, Ends-bind, Ends-branch}
use crinit.TaskDb.Deps.Removal.{IsOpen}
use crinit.Conf.StrArr.{Conv, good, bad, undefined, Mem, part, conv_to_str_arr, filled, count_args}
use crinit.Conf.StrArr.Ascii.{IsAscii, conv_to_str_arr-IsDefined}
use crinit.Conf.Handler.{
  Host, Draft, fail, elos_dep_name, DepText, placed, refused, misplaced, on_dep, dep_of,
  announce_dep, add_deps, dep_list_handler, dep_handler, trig_handler,
}
use crinit.Conf.Load.Handlers.{IsSound, After, StaysOpen, on_conv-Ends, on_option-Ends}

-- The names of timers can be copied.
abbrev pub CopiesTimers : Host → Type 0
CopiesTimers host = (name : Str) → host.dup_timer name ≡ true

abbrev pub is_misplaced : DepText → Bool
is_misplaced misplaced = true
is_misplaced _ = false

abbrev pub IsPlaced : Str → Type 0
IsPlaced s = is_misplaced (dep_of s) ≡ false

abbrev pub PlacedArgs : Conv (List Str) → Type 0
PlacedArgs (good strs) = All IsPlaced strs
PlacedArgs bad = Unit {0}
PlacedArgs undefined = Unit {0}

abbrev enough : Mem
enough path = true

-- No dependency in the text starts with a colon, or has a blank between its colon and its event.
abbrev pub HasPlacedDeps : Str → Type 0
HasPlacedDeps val = PlacedArgs (conv_to_str_arr enough false val)

filled-good :
    (mem : Mem) (dq : Bool) (s : Str) (o : Option ℕ) (strs : List Str)
    → filled mem dq s o ≡ good strs
    → filled enough dq s o ≡ good strs
unfolding filled
filled-good mem dq s none strs e = absurd (ground (arith, e))
filled-good mem dq s (some n) strs e = elim (Bool-cases (mem (1 ∷ []))) [
  | inl t ↦ ground (arith, t, e)
  | inr f ↦ absurd (ground (arith, f, e))
]

-- A conversion that succeeds gives what it gives with enough memory.
conv_to_str_arr-good :
    (mem : Mem) (dq : Bool) (s : Str) (strs : List Str)
    → conv_to_str_arr mem dq s ≡ good strs
    → conv_to_str_arr enough dq s ≡ good strs
unfolding conv_to_str_arr
conv_to_str_arr-good mem dq s strs e = elim (Bool-cases (mem (0 ∷ []))) [
  | inl t ↦ filled-good mem dq s (count_args (suc (length s)) dq s) strs (ground (arith, t, e))
  | inr f ↦ absurd (ground (arith, f, e))
]

on_dep-Ends :
    {A : Type 0} (d : DepText) (f : Dep → M (Option A)) (w : World)
    → is_misplaced d ≡ false
    → IsOpen w
    → ((dep : Dep) → Ends StaysOpen (f dep w))
    → Ends StaysOpen (on_dep d f w)
on_dep-Ends (placed dep) f w n o k = k dep
on_dep-Ends refused f w n o k = o
on_dep-Ends misplaced f w n o k = absurd (cc n)

-- A dependency of the loop, whose timer may be added
announce_dep-Ends :
    (host : Host) (dep : Dep) (w : World)
    → CopiesTimers host
    → IsOpen w
    → Ends StaysOpen (announce_dep host dep w)
unfolding announce_dep
announce_dep-Ends host dep w c o =
    Ends-bind {A = Unit {0}} {B = Bool} StaysOpen StaysOpen
      (branch (str_eq dep.name timer_dep_name)
        (add_timer host.parse_timer host.gmtime host.now_sec host.now_nsec host.dup_timer dep.event)
        (return tt))
      (λ x. return (not (str_eq dep.name elos_dep_name))) w
      (Ends-branch StaysOpen (str_eq dep.name timer_dep_name)
        (add_timer host.parse_timer host.gmtime host.now_sec host.now_nsec host.dup_timer dep.event)
        (return tt) w
        (λ _.
          let (timers, i) =
            add_timer-refs_of host.parse_timer host.gmtime host.now_sec host.now_nsec host.dup_timer
              dep.event w o.lockable o.pool (c dep.event) in
          subst (Ends StaysOpen) (sym i.0) (record { lockable = o.lockable; pool = i.1 }))
        (λ _. o))
      (λ _ w' p. p)

add_deps-Ends :
    (host : Host) (mem : Mem) (i : ℕ) (strs : List Str) (w : World)
    → CopiesTimers host
    → All IsPlaced strs
    → IsOpen w
    → Ends StaysOpen (add_deps host mem i strs w)
unfolding add_deps
add_deps-Ends host mem i [] w c l o = o
add_deps-Ends host mem i (t ∷ strs) w c l o =
    Ends-branch StaysOpen (mem (i ∷ [])) _ fail w
      (λ _. on_dep-Ends (dep_of t) _ w l.0 o (λ dep.
        Ends-bind StaysOpen StaysOpen (announce_dep host dep) _ w (announce_dep-Ends host dep w c o)
          (λ usable v p.
            Ends-branch StaysOpen usable _ fail v
              (λ _.
                Ends-bind StaysOpen StaysOpen (add_deps host mem (suc i) strs) _ v
                  (add_deps-Ends host mem (suc i) strs v c l.1 p) (λ deps u q. q))
              (λ _. p))))
      (λ _. o)

dep_list_handler-Ends :
    (host : Host) (mem : Mem) (val : Str) (list : List Dep) (w : World)
    → CopiesTimers host
    → IsAscii val
    → HasPlacedDeps val
    → IsOpen w
    → Ends StaysOpen (dep_list_handler host mem val list w)
unfolding dep_list_handler
dep_list_handler-Ends host mem val list w c h l o =
    on_conv-Ends StaysOpen (conv_to_str_arr (part mem 0) false val) _ w
      (conv_to_str_arr-IsDefined (part mem 0) false val h) o
      (λ strs e.
        Ends-branch StaysOpen (length strs == 0) (return (some list)) _ w (λ _. o)
          (λ _.
            Ends-branch StaysOpen (mem (1 ∷ [])) _ fail w
              (λ _.
                Ends-bind StaysOpen StaysOpen (add_deps host (part mem 2) 0 strs) _ w
                  (add_deps-Ends host (part mem 2) 0 strs w c
                    (subst PlacedArgs (conv_to_str_arr-good (part mem 0) false val strs e) l) o)
                  (λ deps v p. p))
              (λ _. o)))

module _ (host : Host) (mem : Mem) (val : Str) (d : Draft) (w : World) (c : CopiesTimers host)
    (h : IsAscii val) (l : HasPlacedDeps val) (s : IsSound d) (o : IsOpen w) where
  pub dep_handler-Ends : Ends After (dep_handler host mem val d w)
  unfolding dep_handler
  dep_handler-Ends =
      Ends-bind StaysOpen After (dep_list_handler host mem val d.task.deps) _ w
        (dep_list_handler-Ends host mem val d.task.deps w c h l o)
        (λ deps v p. on_option-Ends After deps fail _ v (p, tt) (λ l e. (p, s)))

  pub trig_handler-Ends : Ends After (trig_handler host mem val d w)
  unfolding trig_handler
  trig_handler-Ends =
      Ends-bind StaysOpen After (dep_list_handler host mem val d.task.trig) _ w
        (dep_list_handler-Ends host mem val d.task.trig w c h l o)
        (λ deps v p. on_option-Ends After deps fail _ v (p, tt) (λ l e. (p, s)))
