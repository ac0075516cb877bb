-- ===== src/Command/ShowTask/Laws.antt =====
-- The response of `STATUS`.
use crinit.Base.{
  ℕ, zero, suc, ◌+◌, ◌-◌, ◌/◌, ◌%◌, ◌≡◌, refl, sym, ap, subst, ◌∙◌, true, false, List, [], ◌∷◌,
  ◌++◌, Option, none, some, ◌==◌, ltb, length, replicate, All, All-append, arith, Bool-cases, inl,
  inr,
}
use crinit.Base.Str.{Str}
use crinit.Base.Int.{ℤ, pos, negsuc}
use crinit.Task.{Task, Timespec}
use crinit.World.{World, fault, ◌>>◌, on_option}
use crinit.World.Laws.{Ends, Ends-bind, Ends-branch, absurd_test}
use crinit.TaskDb.Find.Laws.{task_of}
use crinit.TaskDb.Deps.Fulfil.{IsQuiet}
use crinit.TaskDb.Records.{borrow_task, remit}
use crinit.TaskDb.Records.Locking.{Borrows, borrow_task-Borrows}
use crinit.TaskDb.Records.RoundTrip.{some_ne_none}
use crinit.Rtim.{RtimOp, r_status}
use crinit.Rtim.Cmd.{RtimCmd}
use crinit.Command.{Memory, build_cmd, respond, refuse, res_ok}
use crinit.Command.Control.Laws.{some_inj}
use crinit.Command.ShowTask.{
  digits, decimal, signed, as_int, show_time, name_or_root, status_fields, lines, keep_line,
  cut_line, cut_lines, print_status, no_access, exec_status,
}

-- A text without a newline
abbrev pub IsLine : Str → Type 0
IsLine s = All (λ x. (x == 10) ≡ false) s

digits-IsLine : (k n : ℕ) → IsLine (digits k n)
unfolding digits
digits-IsLine zero n = (ground arith, tt)
digits-IsLine (suc k) n = elim (Bool-cases (ltb n 10)) [
  | inl e ↦ rw e (ground arith, tt)
  | inr e ↦ rw e (
      All-append (λ x. (x == 10) ≡ false) (digits k (n / 10)) ((48 + n % 10) ∷ [])
        (digits-IsLine k (n / 10)) (ground arith, tt))
]

decimal-IsLine : (n : ℕ) → IsLine (decimal n)
unfolding decimal
decimal-IsLine n = digits-IsLine 20 n

signed-IsLine : (n : ℤ) → IsLine (signed n)
unfolding signed
signed-IsLine (pos n) = decimal-IsLine n
signed-IsLine (negsuc n) = (refl, decimal-IsLine (suc n))

replicate-IsLine : (n : ℕ) → IsLine (replicate n 48)
replicate-IsLine zero = tt
replicate-IsLine (suc n) = (refl, replicate-IsLine n)

show_time-IsLine : (t : Timespec) → IsLine (show_time t)
unfolding show_time
show_time-IsLine t =
    All-append (λ x. (x == 10) ≡ false)
      (decimal t.sec ++ 46 ∷ replicate (9 - length (decimal t.nsec)) 48) (decimal t.nsec)
      (All-append (λ x. (x == 10) ≡ false) (decimal t.sec)
        (46 ∷ replicate (9 - length (decimal t.nsec)) 48) (decimal-IsLine t.sec)
        (refl, replicate-IsLine (9 - length (decimal t.nsec))))
      (decimal-IsLine t.nsec)

cut_line-append : (l s : Str) → IsLine l → cut_line (l ++ 10 ∷ s) ≡ some (l, s)
unfolding cut_line
cut_line-append [] s h = refl
cut_line-append (x ∷ l) s h = ground (arith, h.0, cut_line-append l s h.1)

cut_lines-lines :
    (l : Str) (ls : List Str)
    → All IsLine (l ∷ ls)
    → cut_lines (length ls) (lines (l ∷ ls)) ≡ some (l ∷ ls)
unfolding cut_lines lines
cut_lines-lines l [] h = refl
cut_lines-lines l (m ∷ ls) h =
    ap
      (λ c. elim c as (λ _. Option (List Str)) [
        | none ↦ none
        | some p ↦ keep_line p.0 (cut_lines (length ls) p.1)
      ])
      (cut_line-append l (lines (m ∷ ls)) h.0)
    ∙ ap (keep_line l) (cut_lines-lines m ls h.1)

-- The fields have no newline if the names have none.
status_fields-IsLine :
    (t : Task)
    → IsLine (name_or_root t.username)
    → IsLine (name_or_root t.groupname)
    → All IsLine (status_fields t)
unfolding status_fields
status_fields-IsLine t u g = (
  decimal-IsLine t.state,
  (
    signed-IsLine t.pid,
    (
      show_time-IsLine t.create_time,
      (
        show_time-IsLine t.start_time,
        (
          show_time-IsLine t.end_time,
          (signed-IsLine (as_int t.user), (signed-IsLine (as_int t.group), (u, (g, tt)))),
        ),
      ),
    ),
  ),
)

cut_lines-status_fields :
    (t : Task)
    → IsLine (name_or_root t.username)
    → IsLine (name_or_root t.groupname)
    → cut_lines 8 (lines (status_fields t)) ≡ some (status_fields t)
unfolding status_fields
cut_lines-status_fields t u g = cut_lines-lines _ _ (status_fields-IsLine t u g)

-- STATUS of a task that is there, in a quiet state with memory, answers with its state, its pid, its
-- times, its user and its group, each as it is printed, and the names of these two, which have no
-- newline; the state is the same afterwards.
pub exec_status-status_fields :
    (mem : Memory) (op : RtimOp) (name : Str) (t : Task) (w : World)
    → IsQuiet w
    → task_of name w.db.task_set ≡ some t
    → mem.temporary ≡ true
    → mem.array ≡ true
    → IsLine (name_or_root t.username)
    → IsLine (name_or_root t.groupname)
    → Ends
        (λ out v. (out ≡ build_cmd mem.response r_status (res_ok ∷ status_fields t)) × (v ≡ w))
        (exec_status mem (record { op = op; args = name ∷ [] }) w)
unfolding exec_status print_status
exec_status-status_fields mem op name t w q there a b u g =
    Ends-bind (Borrows name w) _ (borrow_task name) _ w (borrow_task-Borrows name w q) go
  where
    Q : Option RtimCmd → World → Type 0
    Q out v = (out ≡ build_cmd mem.response r_status (res_ok ∷ status_fields t)) × (v ≡ w)

    answer : (x : Task) (v : World) → x ≡ t → v ≡ w → Ends Q (print_status mem x v)
    answer x v e f =
        Ends-branch Q mem.temporary _ _ v
          (λ _.
            Ends-branch Q mem.array _ _ v
              (λ _.
                subst
                  (λ o.
                    Ends Q (
                      on_option o (λ w. fault) (λ fields. respond mem r_status (res_ok ∷ fields))
                        v))
                  (sym (
                    ap (λ y. cut_lines 8 (lines (status_fields y))) e
                    ∙ cut_lines-status_fields t u g))
                  (refl, f))
              (λ n. absurd (absurd_test b n)))
          (λ n. absurd (absurd_test a n))

    go :
        (o : Option (ℕ × Task)) (v : World)
        → Borrows name w o v
        → Ends Q
            (on_option o (refuse mem r_status no_access) (λ p. remit >> print_status mem p.1) v)
    go none v h = absurd (some_ne_none (sym there ∙ h.0))
    go (some (i, x)) v h =
        Ends-bind _ Q remit _ v h.3 (λ r v' k. answer x v' (some_inj (sym h.0 ∙ there)) k.1)
