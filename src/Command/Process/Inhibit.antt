-- ===== src/Command/Process/Inhibit.antt =====
-- The inhibition of waiting, when nothing keeps it from being set.
use crinit.Base.{◌≡◌, ap, ◌∙◌, Bool, true, false, not, ◌&&◌, if◌then◌else◌, arith, ok, err}
use crinit.World.{World, Os, Procs, ret, blocked, branch}
use crinit.World.Laws.{bind-ret}
use crinit.TaskDb.Deps.Fulfil.{IsQuiet}
use crinit.Command.Process.{lock_wait, unlock_wait, set_inhibit_wait, block_on_wait_inhibit}

-- The inhibition of waiting can be set: its mutex is free and nothing reports an error.
pub record IsCalm (os : Os) (p : Procs) : Type 0 where
  pub lockable : os.wait_lock_error ≡ false
  pub unlockable : os.wait_unlock_error ≡ false
  pub heard : os.wait_broadcast_error ≡ false
  pub free : p.wait_locked ≡ false

abbrev pub with_inhibit : Bool → Procs → Procs
with_inhibit inh p = record p { wait_inhibit = inh; wait_locked = false }

abbrev pub inhibited : Bool → World → World
inhibited inh w = record w { procs = with_inhibit inh w.procs }

-- The state with the mutex of the inhibition locked
held : World → World
held w = record w { procs = record (w.procs) { wait_locked = true } }

lock_wait-held : (w : World) → IsCalm w.os w.procs → lock_wait w ≡ ret ok (held w)
unfolding held
lock_wait-held w c = ground (arith, c.lockable, c.free)

pub set_inhibit_wait-inhibited :
    (inh : Bool) (w : World)
    → IsCalm w.os w.procs
    → set_inhibit_wait inh w ≡ ret ok (inhibited inh w)
unfolding set_inhibit_wait held
set_inhibit_wait-inhibited inh w c =
    bind-ret lock_wait _ w (held w) ok (lock_wait-held w c)
    ∙ bind-ret unlock_wait _
        (record (held w) { procs = record (w.procs) { wait_inhibit = inh; wait_locked = true } })
        (inhibited inh w) ok (ground (arith, c.unlockable))
    ∙ ap (λ s. ret s (inhibited inh w)) (quiet_status inh w.os.wait_broadcast_error c.heard)
  where
    quiet_status : (a b : Bool) → b ≡ false → (if not a && b then err else ok) ≡ ok
    quiet_status a b h = ground (arith, h)

pub inhibited-IsQuiet : (inh : Bool) (w : World) → IsQuiet w → IsQuiet (inhibited inh w)
inhibited-IsQuiet inh w q = record {
  lockable = q.lockable;
  free = q.free;
  open_pool = record { lockable = q.open_pool.lockable; pool = q.open_pool.pool };
  live_tasks = q.live_tasks;
}

pub block_on_wait_inhibit-blocked :
    (w : World)
    → IsCalm w.os w.procs
    → w.procs.wait_inhibit ≡ true
    → block_on_wait_inhibit w ≡ blocked
unfolding block_on_wait_inhibit held
block_on_wait_inhibit-blocked w c i =
    bind-ret lock_wait _ w (held w) ok (lock_wait-held w c)
    ∙ ap (λ b. branch b (λ v. blocked) unlock_wait (held w)) i

pub block_on_wait_inhibit-ok :
    (w : World)
    → IsCalm w.os w.procs
    → w.procs.wait_inhibit ≡ false
    → block_on_wait_inhibit w
      ≡ ret ok (record w { procs = record (w.procs) { wait_locked = false } })
unfolding block_on_wait_inhibit held
block_on_wait_inhibit-ok w c i =
    bind-ret lock_wait _ w (held w) ok (lock_wait-held w c)
    ∙ ap (λ b. branch b (λ v. blocked) unlock_wait (held w)) i
    ∙ ground (arith, c.unlockable)
