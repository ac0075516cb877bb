-- ===== src/Command/ShowTask.antt =====
-- `STATUS` of src/rtimcmd.c.
pub mod Laws
use crinit.Base.{
  ℕ, zero, suc, ◌+◌, ◌-◌, ◌/◌, ◌%◌, ◌^◌, ◌≡◌, Bool, true, false, List, [], ◌∷◌, ◌++◌, Option, none,
  some, ◌==◌, if◌then◌else◌, ltb, length, replicate, Status, ok, err,
}
use crinit.Base.Str.{Str, codes}
use crinit.Base.Int.{ℤ, pos, negsuc}
use crinit.Task.{Task, Timespec}
use crinit.World.{World, fault, M, ◌>>=◌, ◌>>◌, return, branch, on_option}
use crinit.TaskDb.Records.{borrow_task, remit}
use crinit.Rtim.{r_status}
use crinit.Rtim.Cmd.{RtimCmd}
use crinit.Command.{Memory, respond, refuse, res_ok, with_argument, wrong_number, no_memory}

-- The digits of a number with at most so many digits and one more
unfoldable pub digits : ℕ → ℕ → Str
digits zero n = (48 + n % 10) ∷ []
digits (suc k) n =
    let rest = digits k (n / 10) in if ltb n 10 then (48 + n) ∷ [] else rest ++ (48 + n % 10) ∷ []

-- `%lu`; a number of 64 bits has at most 20 digits.
unfoldable pub decimal : ℕ → Str
unfolding digits
decimal n = digits 20 n

-- `%d` and `%lld`
unfoldable pub signed : ℤ → Str
signed (pos n) = decimal n
signed (negsuc n) = 45 ∷ decimal (suc n)

-- A `uid_t` or `gid_t` of 32 bits, which `%d` takes for an `int`
abbrev pub as_int : ℕ → ℤ
as_int n = if ltb n (2 ^ 31) then pos n else negsuc (2 ^ 32 - 1 - n)

-- `%lld.%.9ld`
unfoldable pub show_time : Timespec → Str
show_time t =
    let nsec : Str = decimal t.nsec in decimal t.sec ++ 46 ∷ replicate (9 - length nsec) 48 ++ nsec

abbrev pub name_or_root : Option Str → Str
name_or_root none = codes "root"
name_or_root (some name) = name

-- What the format string prints between its newlines
unfoldable pub status_fields : Task → List Str
unfolding decimal signed show_time
status_fields t =
    decimal t.state
    ∷ signed t.pid
    ∷ show_time t.create_time
    ∷ show_time t.start_time
    ∷ show_time t.end_time
    ∷ signed (as_int t.user)
    ∷ signed (as_int t.group)
    ∷ name_or_root t.username
    ∷ name_or_root t.groupname
    ∷ []

-- The text that `snprintf` makes of `resFmt`
unfoldable pub lines : List Str → Str
lines [] = []
lines (l ∷ []) = l
lines (l ∷ m ∷ ls) = l ++ 10 ∷ lines (m ∷ ls)

-- `strchr(s, '\\n')`, with the newline replaced by the end of the string: what stands before it, and
-- what stands behind it
unfoldable pub cut_line : Str → Option (Str × Str)
cut_line [] = none
cut_line (x ∷ s) =
    let rest = cut_line s in
    if x == 10 then some ([], s) else elim rest [ none ↦ none | some p ↦ some (x ∷ p.0, p.1) ]

abbrev pub keep_line : Str → Option (List Str) → Option (List Str)
keep_line l none = none
keep_line l (some ls) = some (l ∷ ls)

-- So many cuts in a row. Without a newline, a null pointer is written to.
unfoldable pub cut_lines : ℕ → Str → Option (List Str)
unfolding cut_line
cut_lines zero s = some (s ∷ [])
cut_lines (suc n) s = elim (cut_line s) [ none ↦ none | some p ↦ keep_line p.0 (cut_lines n p.1) ]

-- The response for a task. The first allocations are the copies of the two names, which are printed
-- unchecked, and then the one of the text.
unfoldable pub print_status : Memory → Task → M (Option RtimCmd)
unfolding status_fields lines cut_lines
print_status mem t =
    branch mem.temporary
      (branch mem.array
        (on_option (cut_lines 8 (lines (status_fields t))) (λ w. fault)
          (λ fields. respond mem r_status (res_ok ∷ fields)))
        (refuse mem r_status no_memory))
      (λ w. fault)

abbrev pub no_access : Str
no_access = codes "Could not get access to requested task in TaskDB."

-- `crinitExecRtimCmdStatus`
unfoldable pub exec_status : Memory → RtimCmd → M (Option RtimCmd)
unfolding print_status
exec_status mem cmd = with_argument cmd (refuse mem r_status wrong_number) λ name. do
  borrowed ← borrow_task name
  on_option borrowed (refuse mem r_status no_access) (λ p. remit >> print_status mem p.1)
