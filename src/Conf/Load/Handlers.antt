-- ===== src/Conf/Load/Handlers.antt =====
-- The handlers of src/confhdl.c return, and keep what is known of the task.
use crinit.Base.{
  ℕ, ◌≡◌, refl, true, false, List, [], ◌∷◌, Option, none, some, ◌==◌, length, All, All-append, ok,
  err,
}
use crinit.Base.Str.{Str}
use crinit.Base.Int.{ℤ}
use crinit.EnvSet.{EnvSet, Outcome, done, undefined}
use crinit.EnvSet.Laws.{IsWellFormed}
use crinit.Task.{IoRedir}
use crinit.Task.State
use crinit.World.{World, ret, fault, M, return, on_option}
use crinit.World.Laws.{Ends, Ends-branch}
use crinit.TaskDb.Deps.Removal.{IsOpen}
use crinit.Conf.StrArr.{Conv, good, bad, Mem, part, conv_to_str_arr}
use crinit.Conf.StrArr.Ascii.{IsAscii, IsDefined, conv_to_str_arr-IsDefined}
use crinit.Conf.EnvVar.{conv_to_env_set_member}
use crinit.Conf.EnvVar.Safety.{SetsOne, conv_to_env_set_member-SetsOne}
use crinit.Conf.Value.{conv_to_integer_i, conv_to_io_redir}
use crinit.Conf.Value.Redir.{IsRedir, conv_to_io_redir-IsRedir, conv_to_io_redir-IsDefined}
use crinit.Conf.Handler.{
  Host, Draft, on_conv, fail, cmd_handler, stop_cmd_handler, prvs_of, prv_handler, set_task_opt,
  opt_handler, name_handler, env_handler, io_redir_handler, resp_ret_handler,
}

-- What holds of a task while it is made: its set of variables is well formed, its redirections are as
-- they may be, and it has not been started.
pub record HasSoundParts (env : EnvSet) (redirs : List IoRedir) (state : ℕ) (pid : ℤ) : Type 0 where
  pub env_formed : IsWellFormed env
  pub redirs_ok : All IsRedir redirs
  pub not_started : state ≡ State.loaded
  pub no_process : pid ≡ ℤ.negsuc 0

abbrev pub IsSound : Draft → Type 0
IsSound d = HasSoundParts d.task.task_env d.task.redirs d.task.state d.task.pid

abbrev pub SoundResult : Option Draft → Type 0
SoundResult none = Unit
SoundResult (some d) = IsSound d

-- What a handler leaves
abbrev pub After : Option Draft → World → Type 0
After o w = IsOpen w × SoundResult o

-- The pool of timers stays open.
abbrev pub StaysOpen : {A : Type 0} → A → World → Type 0
StaysOpen a w = IsOpen w

pub on_conv-Ends :
    {A B : Type 0} (Q : Option B → World → Type 0) (c : Conv A) (f : A → M (Option B)) (w : World)
    → IsDefined c
    → Q none w
    → ((a : A) → c ≡ good a → Ends Q (f a w))
    → Ends Q (on_conv c f w)
on_conv-Ends Q (good a) f w h n k = k a refl
on_conv-Ends Q bad f w h n k = n
on_conv-Ends Q Conv.undefined f w h n k = absurd h

pub on_option-Ends :
    {A B : Type 0} (Q : B → World → Type 0) (o : Option A) (m : M B) (f : A → M B) (w : World)
    → Ends Q (m w)
    → ((a : A) → o ≡ some a → Ends Q (f a w))
    → Ends Q (on_option o m f w)
on_option-Ends Q none m f w n k = n
on_option-Ends Q (some a) m f w n k = k a refl

module _ (d : Draft) (w : World) (s : IsSound d) (open_pool : IsOpen w) where
  pub cmd_handler-Ends :
      (mem : Mem) (val : Str) → IsAscii val → Ends After (cmd_handler mem val d w)
  unfolding cmd_handler
  cmd_handler-Ends mem val h =
      Ends-branch After (mem (0 ∷ [])) _ fail w
        (λ _.
          on_conv-Ends After (conv_to_str_arr (part mem 1) true val) _ w
            (conv_to_str_arr-IsDefined (part mem 1) true val h) (open_pool, tt)
            (λ argv e. (open_pool, s)))
        (λ _. (open_pool, tt))

  pub stop_cmd_handler-Ends :
      (mem : Mem) (val : Str) → IsAscii val → Ends After (stop_cmd_handler mem val d w)
  unfolding stop_cmd_handler
  stop_cmd_handler-Ends mem val h =
      Ends-branch After (mem (0 ∷ [])) _ fail w
        (λ _.
          on_conv-Ends After (conv_to_str_arr (part mem 1) true val) _ w
            (conv_to_str_arr-IsDefined (part mem 1) true val h) (open_pool, tt)
            (λ argv e. (open_pool, s)))
        (λ _. (open_pool, tt))

  pub prv_handler-Ends :
      (mem : Mem) (val : Str) → IsAscii val → Ends After (prv_handler mem val d w)
  unfolding prv_handler
  prv_handler-Ends mem val h =
      on_conv-Ends After (conv_to_str_arr (part mem 0) false val) _ w
        (conv_to_str_arr-IsDefined (part mem 0) false val h) (open_pool, tt)
        (λ strs e.
          Ends-branch After (length strs == 0) (return (some d)) _ w (λ _. (open_pool, s))
            (λ _.
              Ends-branch After (mem (1 ∷ [])) _ fail w
                (λ _.
                  on_option-Ends After (prvs_of (part mem 2) 0 strs) fail _ w (open_pool, tt)
                    (λ prvs f. (open_pool, s)))
                (λ _. (open_pool, tt))))

  pub opt_handler-Ends : (bit : ℕ) (val : Str) → Ends After (opt_handler bit val d w)
  unfolding opt_handler
  opt_handler-Ends bit val =
      on_option-Ends After (set_task_opt bit d.task.opts val) fail _ w (open_pool, tt)
        (λ opts e. (open_pool, s))

  pub name_handler-Ends : (mem : Mem) (val : Str) → Ends After (name_handler mem val d w)
  unfolding name_handler
  name_handler-Ends mem val =
      Ends-branch After (mem (0 ∷ [])) _ fail w (λ _. (open_pool, s)) (λ _. (open_pool, tt))

  pub resp_ret_handler-Ends : (host : Host) (val : Str) → Ends After (resp_ret_handler host val d w)
  unfolding resp_ret_handler
  resp_ret_handler-Ends host val =
      on_option-Ends After (conv_to_integer_i host.strtol val) fail _ w (open_pool, tt)
        (λ n e. (open_pool, s))

  pub io_redir_handler-Ends :
      (host : Host) (mem : Mem) (val : Str)
      → IsAscii val
      → Ends After (io_redir_handler host mem val d w)
  unfolding io_redir_handler
  io_redir_handler-Ends host mem val h =
      Ends-branch After (mem (0 ∷ [])) _ fail w
        (λ _.
          on_conv-Ends After (conv_to_io_redir (part mem 1) host.strtoul_octal host.errno val) _ w
            (conv_to_io_redir-IsDefined (part mem 1) host.strtoul_octal host.errno val h)
            (open_pool, tt)
            (λ r e. (
              open_pool,
              record {
                env_formed = s.env_formed;
                redirs_ok = All-append IsRedir d.task.redirs (r ∷ []) s.redirs_ok (
                  conv_to_io_redir-IsRedir (part mem 1) host.strtoul_octal host.errno val r e,
                  tt,
                );
                not_started = s.not_started;
                no_process = s.no_process;
              },
            )))
        (λ _. (open_pool, tt))

  pub env_handler-Ends :
      (host : Host) (mem : Mem) (val : Str) → Ends After (env_handler host mem val d w)
  unfolding env_handler
  env_handler-Ends host mem val =
      go (conv_to_env_set_member mem d.task.task_env val)
        (conv_to_env_set_member-SetsOne mem d.task.task_env val s.env_formed)
    where
      go :
          (o : Outcome)
          → SetsOne d.task.task_env o
          → Ends After (elim o [
            | done ok es ↦ ret (some (record d { task = record (d.task) { task_env = es } })) w
            | done err es ↦ ret none w
            | undefined ↦ fault
          ])
      go (done ok es) p = (
        open_pool,
        record {
          env_formed = p.2.0;
          redirs_ok = s.redirs_ok;
          not_started = s.not_started;
          no_process = s.no_process;
        },
      )
      go (done err es) p = (open_pool, tt)
      go undefined p = absurd p.2
