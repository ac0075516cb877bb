-- ===== src/Conf/Handler.antt =====
-- The handlers of src/confhdl.c for the options of a task, for a build without the optional features.
-- A handler gives the changed task, or `none` for -1, after which the caller destroys the task.
pub mod Fields
use crinit.Base.{
  ℕ, zero, suc, ◌+◌, ◌-◌, ◌*◌, ◌/◌, ◌%◌, ◌^◌, Bool, true, false, not, ◌&&◌, ◌||◌, List, [], ◌∷◌,
  ◌++◌, Option, none, some, ◌==◌, if◌then◌else◌, ltb, length, ok, err,
}
use crinit.Base.Str.{Str, str_eq, codes}
use crinit.Base.Int.{ℤ, pos, negsuc, ltb_ℤ}
use crinit.Task.{
  Task, TaskCmd, Dep, Prv, clear_bit, has_bit, timer_dep_name, event_running, event_done,
  event_failed,
}
use crinit.Task.State
use crinit.EnvSet.{EnvSet, done, undefined}
use crinit.Timer.Def.{TimerDef}
use crinit.Timer.Check.{Tm}
use crinit.TimerDb.{add_timer}
use crinit.World.{World, Outcome, ret, blocked, fault, M, ◌>>=◌, ◌>>◌, return, branch, on_option}
use crinit.Conf.StrArr.{Conv, good, bad, Mem, part, first_of, conv_to_str_arr}
use crinit.Conf.Text.{strtok, split_at, is_prefix}
use crinit.Conf.Map
use crinit.Conf.Map.{Bsearch, Config}
use crinit.Conf.Value.{
  StrTo, conv_to_bool, conv_to_integer, conv_to_integer_i, conv_to_integer_ui, conv_to_io_redir,
}
use crinit.Conf.EnvVar.{conv_to_env_set_member}

-- What the handlers ask the C library, the system and the global options
pub record Host : Type 0 where
  pub bsearch : Bsearch
  -- `strtol` and `strtoll`, `strtoul` with base 10 and with base 8
  pub strtol : Str → StrTo ℤ
  pub strtoul : Str → StrTo ℕ
  pub strtoul_octal : Str → StrTo ℕ
  -- `errno` is set by an earlier call
  pub errno : Bool
  pub is_alpha : ℕ → Bool
  -- `getpwnam_r`, `getpwuid_r`, `getgrnam_r` and `getgrgid_r`
  pub uid_of : Str → Option ℕ
  pub user_name : ℕ → Option Str
  pub gid_of : Str → Option ℕ
  pub group_name : ℕ → Option Str
  -- the parser of timer definitions, `gmtime_r` and the time of the call
  pub parse_timer : Str → TimerDef
  pub gmtime : ℤ → Tm
  pub now_sec : ℤ
  pub now_nsec : ℕ
  -- the `strdup` of the name of a new timer
  pub dup_timer : Str → Bool
  -- the options ENV_SET, FILTER_DEFINE, INCLUDEDIR and INCLUDE_SUFFIX, `none` if they cannot be read
  pub glob_env : Option EnvSet
  pub glob_filters : Option EnvSet
  pub incl_dir : Option Str
  pub incl_suffix : Option Str
  -- `crinitParseConf`: the keys and values of a file, none of them if the file has no option
  pub parse_conf : Str → Option (List (Str × Str))

-- A task that is being made. Its name is NULL until it is given.
pub record Draft : Type 0 where
  pub name : Option Str
  pub task : Task

-- The result of a conversion is used, or the handler fails.
abbrev pub on_conv : {A B : Type 0} → Conv A → (A → M (Option B)) → M (Option B)
on_conv (good a) f w = f a w
on_conv bad f w = ret none w
on_conv Conv.undefined f w = fault

abbrev pub fail : {A : Type 0} → M (Option A)
fail w = ret none w

abbrev pub keep : Draft → Task → M (Option Draft)
keep d t = return (some (record d { task = t }))

-- `crinitCfgCmdHandler` and `crinitCfgStopCmdHandler`: a command more, after the array has grown
unfoldable pub cmd_handler : Mem → Str → Draft → M (Option Draft)
cmd_handler mem val d =
    branch (mem (0 ∷ []))
      (on_conv (conv_to_str_arr (part mem 1) true val)
        (λ argv. keep d (record (d.task) { cmds = d.task.cmds ++ record { argv = argv } ∷ [] })))
      fail

unfoldable pub stop_cmd_handler : Mem → Str → Draft → M (Option Draft)
stop_cmd_handler mem val d =
    branch (mem (0 ∷ []))
      (on_conv (conv_to_str_arr (part mem 1) true val) (λ argv.
        keep d (record (d.task) { stop_cmds = d.task.stop_cmds ++ record { argv = argv } ∷ [] })))
      fail

-- What `strtok_r` makes of the copy of a text `name:event`: a dependency, whose event is right behind its name
-- and whose name is the start of the copy; nothing; or pointers to other places of the copy. Of those, a name
-- that is not the start is freed, here or with the task, and an event that is not right behind the name is
-- not found by the copy of the task, which reads past it.
pub data DepText : Type 0 where
  placed : Dep → DepText
  refused misplaced : DepText

unfoldable pub dep_of : Str → DepText
unfolding strtok
dep_of s = elim (strtok b':' s) [
  | none ↦ refused
  | some p ↦ elim (strtok b' ' p.1) [
    | none ↦ if first_of s == b':' then misplaced else refused
    | some q ↦
        if first_of s == b':' || first_of p.1 == b' '
        then misplaced
        else placed (record { name = p.0; event = q.0 })
  ]
]

abbrev pub on_dep : {A : Type 0} → DepText → (Dep → M (Option A)) → M (Option A)
on_dep (placed dep) f = f dep
on_dep refused f = fail
on_dep misplaced f = λ w. fault

abbrev pub elos_dep_name : Str
elos_dep_name = codes "@elos"

-- `strchr(s, '-')` is there, and is "-notified".
unfoldable pub is_notified : Str → Bool
is_notified [] = false
is_notified (x ∷ s) =
    let rest : Bool = is_notified s in if x == b'-' then str_eq s (codes "notified") else rest

-- The state of a feature. "wait" is compared with the length of "spawn", so with its null byte.
unfoldable pub state_of_event : Str → Option ℕ
unfolding is_prefix
state_of_event s =
    if is_prefix event_running s
    then some State.running
    else if str_eq s event_done
    then some State.done
    else if is_prefix event_failed s
    then some State.failed
    else none

-- A feature, `name:state`
unfoldable pub prv_of : Str → Option Prv
unfolding split_at state_of_event is_notified
prv_of s = elim (split_at b':' s) [
  | none ↦ none
  | some p ↦ elim (state_of_event p.1) [
    | none ↦ none
    | some st ↦
        some
          (record { name = p.0; state_req = if is_notified p.1 then st + State.notified else st })
  ]
]

-- The loop of `crinitCfgPrvHandler`
unfoldable pub prvs_of : Mem → ℕ → List Str → Option (List Prv)
unfolding prv_of
prvs_of mem i [] = some []
prvs_of mem i (s ∷ strs) =
    let rest : Option (List Prv) = prvs_of mem (suc i) strs in
    if mem (i ∷ [])
    then elim (prv_of s) [
      | none ↦ none
      | some p ↦ elim rest [ none ↦ none | some ps ↦ some (p ∷ ps) ]
    ]
    else none

-- `crinitCfgPrvHandler`
unfoldable pub prv_handler : Mem → Str → Draft → M (Option Draft)
unfolding prvs_of
prv_handler mem val d = on_conv (conv_to_str_arr (part mem 0) false val) λ strs.
    branch (length strs == 0) (return (some d)) (
      branch (mem (1 ∷ []))
        (on_option (prvs_of (part mem 2) 0 strs) fail
          (λ prvs. keep d (record (d.task) { prv = d.task.prv ++ prvs })))
        fail)

-- `crinitCfgHandlerSetTaskOptFromStr`
unfoldable pub set_task_opt : ℕ → ℕ → Str → Option ℕ
set_task_opt bit opts val = elim (conv_to_bool val) [
  | none ↦ none
  | some true ↦ some (if has_bit opts bit then opts else opts + 2 ^ bit)
  | some false ↦ some (clear_bit opts bit)
]

-- `crinitCfgRespHandler` and `crinitCfgTrigRearmHandler`
unfoldable pub opt_handler : ℕ → Str → Draft → M (Option Draft)
unfolding set_task_opt
opt_handler bit val d =
    on_option (set_task_opt bit d.task.opts val) fail
      (λ opts. keep d (record (d.task) { opts = opts }))

-- `crinitCfgNameHandler`
unfoldable pub name_handler : Mem → Str → Draft → M (Option Draft)
name_handler mem val d = branch (mem (0 ∷ [])) (return (some (record d { name = some val }))) fail

module _ (host : Host) where
  -- A dependency of the loop: its timer is added, and an elos filter is refused.
  unfoldable pub announce_dep : Dep → M Bool
  announce_dep dep =
      branch (str_eq dep.name timer_dep_name)
        (add_timer host.parse_timer host.gmtime host.now_sec host.now_nsec host.dup_timer dep.event)
        (return tt)
      >> return (not (str_eq dep.name elos_dep_name))

  -- The loop of `crinitDepListHandler`
  unfoldable pub add_deps : Mem → ℕ → List Str → M (Option (List Dep))
  unfolding dep_of announce_dep
  add_deps mem i [] = return (some [])
  add_deps mem i (s ∷ strs) =
      let rest : M (Option (List Dep)) = add_deps mem (suc i) strs in
      branch (mem (i ∷ []))
        (on_dep (dep_of s) (λ dep. do
          usable ← announce_dep dep
          branch usable
              (do deps ← rest; return (elim deps [ none ↦ none | some l ↦ some (dep ∷ l) ])) fail))
        fail

  -- `crinitDepListHandler`
  unfoldable pub dep_list_handler : Mem → Str → List Dep → M (Option (List Dep))
  unfolding add_deps
  dep_list_handler mem val list = on_conv (conv_to_str_arr (part mem 0) false val) λ strs.
      branch (length strs == 0) (return (some list)) (
        branch (mem (1 ∷ []))
          (do
            deps ← add_deps (part mem 2) 0 strs
            return (elim deps [ none ↦ none | some l ↦ some (list ++ l) ]))
          fail)

  -- `crinitCfgDepHandler` and `crinitCfgTrigHandler`
  unfoldable pub dep_handler : Mem → Str → Draft → M (Option Draft)
  unfolding dep_list_handler
  dep_handler mem val d = do
    deps ← dep_list_handler mem val d.task.deps
    on_option deps fail (λ l. keep d (record (d.task) { deps = l }))

  unfoldable pub trig_handler : Mem → Str → Draft → M (Option Draft)
  unfolding dep_list_handler
  trig_handler mem val d = do
    deps ← dep_list_handler mem val d.task.trig
    on_option deps fail (λ l. keep d (record (d.task) { trig = l }))

  -- `crinitCfgEnvHandler` for a task
  unfoldable pub env_handler : Mem → Str → Draft → M (Option Draft)
  env_handler mem val d w = elim (conv_to_env_set_member mem d.task.task_env val) [
    | done ok es ↦ ret (some (record d { task = record (d.task) { task_env = es } })) w
    | done err es ↦ ret none w
    | undefined ↦ fault
  ]

  -- `crinitCfgIoRedirHandler`
  unfoldable pub io_redir_handler : Mem → Str → Draft → M (Option Draft)
  io_redir_handler mem val d =
      branch (mem (0 ∷ []))
        (on_conv (conv_to_io_redir (part mem 1) host.strtoul_octal host.errno val)
          (λ r. keep d (record (d.task) { redirs = d.task.redirs ++ r ∷ [] })))
        fail

  -- `crinitCfgRespRetHandler`
  unfoldable pub resp_ret_handler : Str → Draft → M (Option Draft)
  resp_ret_handler val d =
      on_option (conv_to_integer_i host.strtol val) fail
        (λ n. keep d (record (d.task) { max_retries = n }))
