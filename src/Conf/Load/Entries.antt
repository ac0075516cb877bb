-- ===== src/Conf/Load/Entries.antt =====
-- The loop over the entries of a task returns if the merging of files does.
use crinit.Base.{
  ℕ, suc, ◌≡◌, ◌≢◌, refl, subst, Bool, true, false, not, ◌&&◌, List, [], ◌∷◌, Option, none, some,
  All,
}
use crinit.Base.Str.{Str}
use crinit.Task.{Task}
use crinit.World.{World, M, return, on_option}
use crinit.World.Laws.{Ends, Ends-bind, Ends-branch}
use crinit.TaskDb.Deps.Removal.{IsOpen}
use crinit.Conf.StrArr.{Mem, part, conv_to_str_arr}
use crinit.Conf.StrArr.Ascii.{IsAscii, conv_to_str_arr-IsDefined}
use crinit.Conf.Map.{
  Config, ConfigMapping, task_cfg_map, find_config_mapping, command, depends, env_set, group,
  include, ioredir, name, provides, respawn, respawn_retries, stop_command, trigger, trigger_rearm,
  user,
}
use crinit.Conf.Handler.{Host, Draft, fail}
use crinit.Conf.Ids.{user_with, user_task, user_handler, group_task, group_handler}
use crinit.Conf.Ids.Laws.{Keeps, Ignores, user_task-Keeps, group_task-Keeps}
use crinit.Conf.Load.{
  TaskType, Options, mark, Merge, is_unsafe, given, include_args, task_handler, import_arr,
  load_entries, set_entries,
}
use crinit.Conf.Load.Handlers.{
  HasSoundParts, IsSound, SoundResult, After, on_conv-Ends, on_option-Ends, cmd_handler-Ends,
  stop_cmd_handler-Ends, prv_handler-Ends, opt_handler-Ends, name_handler-Ends,
  resp_ret_handler-Ends, io_redir_handler-Ends, env_handler-Ends,
}
use crinit.Conf.Load.DepLists.{CopiesTimers, HasPlacedDeps, dep_handler-Ends, trig_handler-Ends}

abbrev SoundTask : Task → Type 0
SoundTask t = HasSoundParts t.task_env t.redirs t.state t.pid

SoundTask-Ignores : Ignores SoundTask
unfolding user_with
SoundTask-Ignores = (λ t uid n p. p, λ t gid n p. p, λ t gids p. p)

abbrev pub lists_deps : Config → Bool
lists_deps depends = true
lists_deps trigger = true
lists_deps _ = false

-- A value is ASCII, and that of DEPENDS and TRIGGER names its dependencies as they have to be.
abbrev pub IsReadable : Host → Str × Str → Type 0
IsReadable host (key, val) =
    IsAscii val
    × ((m : ConfigMapping)
        → find_config_mapping host.bsearch task_cfg_map key ≡ some m
        → lists_deps m.config ≡ true
        → HasPlacedDeps val)

abbrev pub AreReadable : Host → List (Str × Str) → Type 0
AreReadable host src = All (IsReadable host) src

-- A way of merging that returns
abbrev pub MergeEnds : Merge → Type 0
MergeEnds merge =
    (mem : Mem) (src : Str) (list : Option Str) (d : Draft) (w : World)
    → IsSound d
    → IsOpen w
    → Ends After (merge mem src list d w)

kept :
    (d : Draft) (w : World) (o : Option Task)
    → IsOpen w
    → IsSound d
    → Keeps SoundTask d.task o
    → Ends After (on_option o fail (λ t. return (some (record d { task = t }))) w)
kept d w none open_pool s k = (open_pool, tt)
kept d w (some t) open_pool s k = (open_pool, k s)

module _ (host : Host) (copies : CopiesTimers host) (merge : Merge) (merges : MergeEnds merge) where
  include_args-Ends :
      (mem : Mem) (args : List Str) (d : Draft) (w : World)
      → IsSound d
      → IsOpen w
      → Ends After (include_args merge mem d args w)
  unfolding include_args
  include_args-Ends mem [] d w s o = (o, tt)
  include_args-Ends mem (a ∷ []) d w s o = merges mem a none d w s o
  include_args-Ends mem (a ∷ b ∷ []) d w s o = merges mem a (some b) d w s o
  include_args-Ends mem (a ∷ b ∷ c ∷ args) d w s o = (o, tt)

  task_handler-Ends :
      (c : Config) (mem : Mem) (val : Str) (d : Draft) (w : World)
      → IsAscii val
      → (lists_deps c ≡ true → HasPlacedDeps val)
      → IsSound d
      → IsOpen w
      → Ends After (task_handler host merge c mem val d w)
  unfolding task_handler user_handler group_handler
  task_handler-Ends command mem val d w h l s o = cmd_handler-Ends d w s o mem val h
  task_handler-Ends depends mem val d w h l s o =
      dep_handler-Ends host mem val d w copies h (l refl) s o
  task_handler-Ends env_set mem val d w h l s o = env_handler-Ends d w s o host mem val
  task_handler-Ends group mem val d w h l s o =
      on_conv-Ends After (conv_to_str_arr (part mem 0) true val) _ w
        (conv_to_str_arr-IsDefined (part mem 0) true val h) (o, tt)
        (λ args e.
          kept d w (group_task host mem args d.task) o s
            (group_task-Keeps host SoundTask SoundTask-Ignores mem args d.task))
  task_handler-Ends include mem val d w h l s o =
      on_conv-Ends After (conv_to_str_arr (part mem 0) true val) _ w
        (conv_to_str_arr-IsDefined (part mem 0) true val h) (o, tt)
        (λ args e. include_args-Ends (part mem 1) args d w s o)
  task_handler-Ends ioredir mem val d w h l s o = io_redir_handler-Ends d w s o host mem val h
  task_handler-Ends name mem val d w h l s o = name_handler-Ends d w s o mem val
  task_handler-Ends provides mem val d w h l s o = prv_handler-Ends d w s o mem val h
  task_handler-Ends respawn mem val d w h l s o = opt_handler-Ends d w s o 0 val
  task_handler-Ends respawn_retries mem val d w h l s o = resp_ret_handler-Ends d w s o host val
  task_handler-Ends stop_command mem val d w h l s o = stop_cmd_handler-Ends d w s o mem val h
  task_handler-Ends trigger mem val d w h l s o =
      trig_handler-Ends host mem val d w copies h (l refl) s o
  task_handler-Ends trigger_rearm mem val d w h l s o = opt_handler-Ends d w s o 1 val
  task_handler-Ends user mem val d w h l s o =
      kept d w (user_task host mem val d.task) o s
        (user_task-Keeps host SoundTask SoundTask-Ignores mem val d.task)
  task_handler-Ends _ mem val d w h l s o = (o, tt)

  load_entries-Ends :
      (mem : Mem) (i : ℕ) (type : TaskType) (imports seen : Options) (src : List (Str × Str))
      (d : Draft) (w : World)
      → AreReadable host src
      → IsSound d
      → IsOpen w
      → Ends After (load_entries host merge mem i type imports seen src d w)
  unfolding load_entries
  load_entries-Ends mem i type imports seen [] d w h s o = (o, s)
  load_entries-Ends mem i type imports seen ((key, val) ∷ src) d w h s o =
      on_option-Ends After (find_config_mapping host.bsearch task_cfg_map key) _ _ w
        (load_entries-Ends mem (suc i) type imports seen src d w h.1 s o)
        (λ m e.
          Ends-branch After (is_unsafe type m) fail _ w (λ _. (o, tt))
            (λ _.
              Ends-branch After (not m.array_like && seen m.config) fail _ w (λ _. (o, tt))
                (λ _.
                  Ends-branch After (imports m.config) _ _ w
                    (λ _.
                      Ends-bind After After (task_handler host merge m.config (part mem i) val d) _
                        w (task_handler-Ends m.config (part mem i) val d w h.0.0 (h.0.1 m e) s o)
                        (λ changed v p.
                          on_option-Ends After changed fail _ v (p.0, tt)
                            (λ d' f.
                              load_entries-Ends mem (suc i) type imports (mark seen m.config) src d'
                                v h.1 (subst SoundResult f p.1) p.0)))
                    (λ _.
                      load_entries-Ends mem (suc i) type imports (mark seen m.config) src d w h.1 s
                        o))))

  given-Ends :
      (src : List (Str × Str)) (m : Draft → M (Option Draft)) (d : Draft) (w : World)
      → src ≢ []
      → Ends After (m d w)
      → Ends After (given src (m d) w)
  given-Ends [] m d w e h = absurd (e refl)
  given-Ends (x ∷ src) m d w e h = h

  pub set_entries-Ends :
      (mem : Mem) (type : TaskType) (list : Option Str) (src : List (Str × Str)) (d : Draft)
      (w : World)
      → AreReadable host src
      → src ≢ []
      → IsSound d
      → IsOpen w
      → Ends After (set_entries host merge mem type list src d w)
  unfolding set_entries
  set_entries-Ends mem type list src d w h e s o =
      on_option-Ends After (import_arr host type list) fail _ w (o, tt)
        (λ imports f.
          given-Ends src (load_entries host merge mem 0 type imports (λ c. false) src) d w e
            (load_entries-Ends mem 0 type imports (λ c. false) src d w h s o))
