-- ===== src/Command/Notify.antt =====
-- `NOTIFY` of src/rtimcmd.c.
pub mod Laws
use crinit.Base.{
  ℕ, zero, suc, ◌+◌, ◌≡◌, Bool, true, false, not, ◌&&◌, ◌||◌, List, [], ◌∷◌, ◌++◌, Option, none,
  some, ◌==◌, if◌then◌else◌, length, Status, ok, err,
}
use crinit.Base.Str.{Str, codes}
use crinit.Base.Int.{ℤ, pos, negsuc, leb_ℤ}
use crinit.Task.{Dep, event_running, event_done}
use crinit.Task.State
use crinit.World.{World, Outcome, ret, M, ◌>>=◌, ◌>>◌, return, branch, on_status}
use crinit.TaskDb.Deps.{fulfill_dep}
use crinit.TaskDb.Provide.{provide_feature_by_task_name}
use crinit.TaskDb.Records.{set_task_state, set_task_pid}
use crinit.Rtim.{r_notify, strncmp_eq}
use crinit.Rtim.Cmd.{RtimCmd}
use crinit.Command.{Memory, refuse, succeed, wrong_number}

-- The numbers of a notification: `pid`, `ready` and `stopping`
pub record Notice : Type 0 where
  pub pid : ℤ
  pub ready : ℤ
  pub stopping : ℤ

-- `strchr(s, '=')`: how many bytes stand before it, and what stands behind it
unfoldable pub split_at_equals : Str → Option (ℕ × Str)
split_at_equals [] = none
split_at_equals (x ∷ s) =
    let rest = split_at_equals s in
    if x == 61 then some (0, s) else elim rest [ none ↦ none | some p ↦ some (suc p.0, p.1) ]

-- One round of the loop. The names are compared up to the length of the key in the argument.
-- `strtol` stands for the C library's function, with the conversion to `int`.
abbrev pub take_notice : (Str → ℤ) → Str → Notice → Option (ℕ × Str) → Notice
take_notice strtol arg n none = n
take_notice strtol arg n (some (len, value)) = record {
  pid = if strncmp_eq len arg (codes "MAINPID") then strtol value else n.pid;
  ready = if strncmp_eq len arg (codes "READY") then strtol value else n.ready;
  stopping = if strncmp_eq len arg (codes "STOPPING") then strtol value else n.stopping;
}

unfoldable pub read_notice : (Str → ℤ) → Str → Notice → Notice
unfolding split_at_equals strncmp_eq
read_notice strtol arg n = take_notice strtol arg n (split_at_equals arg)

unfoldable pub read_notices : (Str → ℤ) → List Str → Notice → Notice
unfolding read_notice
read_notices strtol [] n = n
read_notices strtol (arg ∷ args) n = read_notices strtol args (read_notice strtol arg n)

abbrev pub is_positive : ℤ → Bool
is_positive n = not (leb_ℤ n (pos 0))

abbrev pub notify_suffix : Str
notify_suffix = codes "-notified"

-- A task's change of state that it tells itself, with the event for those that wait for it
announce : Memory → ℕ → Str → Str → Str → M (Option RtimCmd) → M (Option RtimCmd)
announce mem s event why name next = do
  set ← set_task_state s name
  on_status set
      (do
        fulfilled ← fulfill_dep (record { name = name; event = event })
        on_status fulfilled
            (do
              provided ← provide_feature_by_task_name name s
              on_status provided next (
                  refuse mem r_notify
                    (codes "Could not set features of spawned task '%s' as provided.")))
            (refuse mem r_notify (codes "Could not fulfill dependency '%s:%s'.")))
      (refuse mem r_notify why)

-- A flag that is set, and what follows the change of state
when_set : ℤ → (M (Option RtimCmd) → M (Option RtimCmd)) → M (Option RtimCmd) → M (Option RtimCmd)
when_set n f next = branch (is_positive n) (f next) next

-- `crinitExecRtimCmdNotify` from the test of `pid` on
unfoldable pub apply_notice : Memory → Str → Notice → M (Option RtimCmd)
unfolding announce when_set
apply_notice mem name n = do
  set ← branch (is_positive n.pid) (set_task_pid n.pid name) (return {A = Status} ok)
  on_status set
      (when_set n.ready
        (announce mem (State.running + State.notified) (event_running ++ notify_suffix)
          (codes "Could not set task state to RUNNING.") name)
        (when_set n.stopping
          (announce mem (State.done + State.notified) (event_done ++ notify_suffix)
            (codes "Could not set task state to DONE.") name)
          (succeed mem r_notify)))
      (refuse mem r_notify (codes "Could not set main PID of task."))

abbrev pub no_notice : Notice
no_notice = record { pid = negsuc 0; ready = negsuc 0; stopping = negsuc 0 }

-- `crinitExecRtimCmdNotify`
unfoldable pub exec_notify : Memory → (Str → ℤ) → RtimCmd → M (Option RtimCmd)
unfolding apply_notice read_notices
exec_notify mem strtol cmd = elim cmd.args [
  | [] ↦ refuse mem r_notify wrong_number
  | name ∷ args ↦ elim args [
    | [] ↦ refuse mem r_notify wrong_number
    | arg ∷ more ↦ apply_notice mem name (read_notices strtol (arg ∷ more) no_notice)
  ]
]
