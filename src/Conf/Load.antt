-- ===== src/Conf/Load.antt =====
-- `crinitTaskCreateFromConfKvList`, `crinitTaskMergeInclude` and the loop over the entries of a file in
-- src/task.c.
pub mod Depth
pub mod Handlers
pub mod DepLists
pub mod Entries
pub mod Total
use crinit.Base.{
  ℕ, zero, suc, ◌+◌, Bool, true, false, not, ◌&&◌, ◌||◌, List, [], ◌∷◌, ◌++◌, Option, none, some,
  ◌==◌, if◌then◌else◌, length,
}
use crinit.Base.Str.{Str}
use crinit.Base.Int.{ℤ, negsuc}
use crinit.EnvSet.{EnvSet}
use crinit.Task.{Task, Timespec}
use crinit.Task.State
use crinit.World.{World, Outcome, ret, blocked, fault, M, ◌>>=◌, ◌>>◌, return, branch, on_option}
use crinit.Conf.StrArr.{Conv, Mem, part, conv_to_str_arr}
use crinit.Conf.Map.{
  Config, ConfigMapping, config_code, task_cfg_map, find_config_mapping, command, depends, env_set,
  filter_define, group, include, ioredir, name, provides, respawn, respawn_retries, stop_command,
  trigger, trigger_rearm, user,
}
use crinit.Conf.Handler.{
  Host, Draft, on_conv, fail, cmd_handler, stop_cmd_handler, prv_handler, opt_handler, name_handler,
  dep_handler, trig_handler, env_handler, io_redir_handler, resp_ret_handler,
}
use crinit.Conf.Ids.{user_handler, group_handler}

-- `crinitTaskType_t`
pub data TaskType : Type 0 where
  standard included : TaskType

-- The arrays over all options
abbrev pub Options : Type 0
Options = Config → Bool

abbrev pub mark : Options → Config → Options
mark opts c d = if config_code c == config_code d then true else opts d

-- How a file is merged into a task: with its name and its import list
abbrev pub Merge : Type 0
Merge = Mem → Str → Option Str → Draft → M (Option Draft)

-- One argument, or two with an import list
unfoldable pub include_args : Merge → Mem → Draft → List Str → M (Option Draft)
include_args merge mem d (src ∷ []) = merge mem src none d
include_args merge mem d (src ∷ imports ∷ []) = merge mem src (some imports) d
include_args merge mem d _ = fail

-- `crinitTaskIncludeHandler`
unfoldable pub include_handler : Merge → Mem → Str → Draft → M (Option Draft)
unfolding include_args
include_handler merge mem val d =
    on_conv (conv_to_str_arr (part mem 0) true val) (include_args merge (part mem 1) d)

-- The tokens of a text between commas: the first piece, and the others that are not empty
abbrev add_piece : Str → List Str → List Str
add_piece [] l = l
add_piece (c ∷ s) l = (c ∷ s) ∷ l

pieces : Str → Str × List Str
pieces [] = ([], [])
pieces (c ∷ s) =
    let next : Str × List Str = pieces s in
    if c == b',' then ([], add_piece next.0 next.1) else (c ∷ next.0, next.1)

unfoldable pub split_commas : Str → List Str
unfolding pieces
split_commas s = add_piece (pieces s).0 (pieces s).1

abbrev pub given : {A B : Type 0} → List A → M B → M B
given [] m = λ w. fault
given (e ∷ src) m = m

abbrev pub is_unsafe : TaskType → ConfigMapping → Bool
is_unsafe standard m = false
is_unsafe included m = not m.include_safe

abbrev zero_time : Timespec
zero_time = record { sec = 0; nsec = 0 }

-- The task before its entries are read: zeroed memory, and the global sets of variables
abbrev pub blank : EnvSet → EnvSet → Draft
blank env filters = record {
  name = none;
  task = record {
    name = [];
    cmds = [];
    stop_cmds = [];
    task_env = env;
    elos_filters = filters;
    deps = [];
    trig = [];
    triggered = false;
    prv = [];
    opts = 0;
    state = State.loaded;
    pid = negsuc 0;
    redirs = [];
    max_retries = negsuc 0;
    fail_count = 0;
    inhibit_respawn = false;
    create_time = zero_time;
    start_time = zero_time;
    end_time = zero_time;
    user = 0;
    group = 0;
    sup_groups = [];
    username = none;
    groupname = none;
  };
}

abbrev pub is_empty : {A : Type 0} → List A → Bool
is_empty [] = true
is_empty (x ∷ l) = false

abbrev time_or_zero : Option Timespec → Timespec
time_or_zero none = zero_time
time_or_zero (some t) = t

-- The checks of the task and its last fields
unfoldable pub finish_task : Draft → M (Option Task)
finish_task d w =
    on_option d.name (return none)
      (λ name. branch (is_empty d.task.cmds && is_empty d.task.deps) (return none) (
        return (
          some (record (d.task) {
            name = name;
            triggered = is_empty d.task.trig;
            create_time = time_or_zero w.os.clock;
            start_time = zero_time;
            end_time = zero_time;
          }))))
      w

module _ (host : Host) where
  -- `cfgHandler` of an entry of `crinitTaskCfgMap`
  unfoldable pub task_handler : Merge → Config → Mem → Str → Draft → M (Option Draft)
  unfolding include_handler
  task_handler merge command mem val = cmd_handler mem val
  task_handler merge depends mem val = dep_handler host mem val
  task_handler merge env_set mem val = env_handler host mem val
  task_handler merge group mem val = group_handler host mem val
  task_handler merge include mem val = include_handler merge mem val
  task_handler merge ioredir mem val = io_redir_handler host mem val
  task_handler merge name mem val = name_handler mem val
  task_handler merge provides mem val = prv_handler mem val
  task_handler merge respawn mem val = opt_handler 0 val
  task_handler merge respawn_retries mem val = resp_ret_handler host val
  task_handler merge stop_command mem val = stop_cmd_handler mem val
  task_handler merge trigger mem val = trig_handler host mem val
  task_handler merge trigger_rearm mem val = opt_handler 1 val
  task_handler merge user mem val = user_handler host mem val
  task_handler merge _ mem val = λ d. fail

  -- The options that an import list names, or nothing if it names an unknown one
  imports_of : List Str → Options → Option Options
  imports_of [] opts = some opts
  imports_of (s ∷ strs) opts =
      let rest : Options → Option Options = imports_of strs in
      elim (find_config_mapping host.bsearch task_cfg_map s) [
        | none ↦ none
        | some m ↦ rest (mark opts m.config)
      ]

  unfoldable pub import_arr : TaskType → Option Str → Option Options
  unfolding imports_of split_commas
  import_arr included (some list) = imports_of (split_commas list) (λ c. false)
  import_arr included none = some (λ c. true)
  import_arr standard list = some (λ c. true)

  -- The loop over the entries; `seen` is `duplCheckArr`.
  unfoldable pub load_entries :
      Merge → Mem → ℕ → TaskType → Options → Options → List (Str × Str) → Draft → M (Option Draft)
  unfolding task_handler
  load_entries merge mem i type imports seen [] d = return (some d)
  load_entries merge mem i type imports seen ((key, val) ∷ src) d =
      let rest : Options → Draft → M (Option Draft) =
        λ seen'. load_entries merge mem (suc i) type imports seen' src in
      on_option (find_config_mapping host.bsearch task_cfg_map key) (rest seen d) λ m.
        branch (is_unsafe type m) fail (
          branch (not m.array_like && seen m.config) fail (
            branch (imports m.config)
              (do
                changed ← task_handler merge m.config (part mem i) val d
                on_option changed fail (rest (mark seen m.config)))
              (rest (mark seen m.config) d)))

  -- `crinitTaskSetFromConfKvList`. The list of a file without an option is empty here; in the code it has
  -- one element, whose key is not set and is read.
  unfoldable pub set_entries :
      Merge → Mem → TaskType → Option Str → List (Str × Str) → Draft → M (Option Draft)
  unfolding load_entries import_arr
  set_entries merge mem type list src d =
      on_option (import_arr type list) fail
        λ imports. given src (load_entries merge mem 0 type imports (λ c. false) src d)

  -- `crinitTaskMergeInclude`, with the reading of entries as an argument
  unfoldable pub merge_file :
      (Mem → Option Str → List (Str × Str) → Draft → M (Option Draft)) → Merge
  merge_file set mem src list d = on_option host.incl_dir fail λ dir.
      on_option host.incl_suffix fail λ suffix.
        branch (mem (0 ∷ []))
          (on_option (host.parse_conf (dir ++ (b'/' ∷ (src ++ suffix)))) fail
            λ entries. set (part mem 1) list entries d)
          fail

  -- `crinitTaskSetFromConfKvList`, with files included up to a depth; a deeper one does not return.
  unfoldable pub set_from_conf_kv_list :
      ℕ → Mem → TaskType → Option Str → List (Str × Str) → Draft → M (Option Draft)
  unfolding set_entries merge_file
  set_from_conf_kv_list zero = set_entries (λ mem src list d w. blocked)
  set_from_conf_kv_list (suc n) =
      set_entries (merge_file (λ mem. set_from_conf_kv_list n mem included))

  -- `crinitTaskCreateFromConfKvList`
  unfoldable pub create_from_conf_kv_list : Mem → List (Str × Str) → M (Option Task)
  unfolding set_from_conf_kv_list finish_task
  create_from_conf_kv_list mem src =
      branch (mem (0 ∷ []))
        (on_option host.glob_env (return none) λ env.
          on_option host.glob_filters (return none) λ filters. do
            made ← set_from_conf_kv_list 1 (part mem 1) standard none src (blank env filters)
            on_option made (return none) finish_task)
        (return none)
