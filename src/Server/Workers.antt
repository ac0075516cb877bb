-- ===== src/Server/Workers.antt =====
-- The pool's count of available workers over the rounds of src/notiserv.c.
use crinit.Base.{
  ℕ, suc, ◌+◌, ◌-◌, ◌^◌, ◌≤◌, ◌<◌, ◌≡◌, refl, sym, ap, subst, true, false, List, [], ◌∷◌, length,
  All, if◌then◌else◌, arith,
}
use crinit.ThrPool.{ThreadPool, word, is_dry, busy_callback, avail_callback}
use crinit.Server.{Round}

-- The two calls of a worker around one round. The second one is left out on every `continue`.
unfoldable pub worker_round : Round → ThreadPool → ThreadPool
unfolding busy_callback avail_callback
worker_round r p =
    let p' : ThreadPool = (busy_callback true p).1 in
    if r.available then (avail_callback true p').1 else p'

unfoldable pub worker_rounds : List Round → ThreadPool → ThreadPool
unfolding worker_round
worker_rounds [] p = p
worker_rounds (r ∷ rounds) p = worker_rounds rounds (worker_round r p)

word_pred : (n : ℕ) → 0 < n → n < 2 ^ 64 → word (n + (2 ^ 64 - 1)) ≡ n - 1
word_pred n h k = omega (arith, h, k)

lose : ThreadPool → ThreadPool
lose p = record p { thread_avail = word (p.thread_avail + (2 ^ 64 - 1)) }

worker_round-lose : (r : Round) (p : ThreadPool) → r.available ≡ false → worker_round r p ≡ lose p
unfolding worker_round busy_callback avail_callback lose
worker_round-lose r p h = rw h refl

-- Every round that ends without the second call of its worker leaves one available worker less in the
-- count, though the worker goes on; the number of rounds is at most that of the available workers.
pub worker_rounds-thread_avail :
    (rounds : List Round) (p : ThreadPool)
    → All (λ r. r.available ≡ false) rounds
    → length rounds ≤ p.thread_avail
    → p.thread_avail < 2 ^ 64
    → ((worker_rounds rounds p).thread_avail + length rounds ≡ p.thread_avail)
      × ((worker_rounds rounds p).pool_size ≡ p.pool_size)
unfolding worker_rounds lose
worker_rounds-thread_avail [] p h le small = (omega arith, refl)
worker_rounds-thread_avail (r ∷ rounds) p h le small =
    subst
      (λ q.
        ((worker_rounds rounds q).thread_avail + suc (length rounds) ≡ p.thread_avail)
        × ((worker_rounds rounds q).pool_size ≡ p.pool_size))
      (sym (worker_round-lose r p h.0))
      (let one : word (p.thread_avail + (2 ^ 64 - 1)) ≡ p.thread_avail - 1 =
          word_pred p.thread_avail (omega (arith, le)) small in
        let ih : ((worker_rounds rounds (lose p)).thread_avail + length rounds
              ≡ word (p.thread_avail + (2 ^ 64 - 1)))
            × ((worker_rounds rounds (lose p)).pool_size ≡ p.pool_size) =
          worker_rounds-thread_avail rounds (lose p) h.1 (omega (arith, le, one))
            (omega (arith, small, one)) in
        (omega (arith, ih.0, one, le), ih.1))

pub worker_round-is_dry :
    (r : Round) (p : ThreadPool)
    → r.available ≡ false
    → p.thread_avail ≡ 0
    → p.pool_size < 2 ^ 64
    → ((worker_round r p).thread_avail ≡ 2 ^ 64 - 1) × (is_dry (worker_round r p) ≡ false)
unfolding is_dry lose
worker_round-is_dry r p h z small =
    subst (λ q. (q.thread_avail ≡ 2 ^ 64 - 1) × (is_dry q ≡ false)) (sym (worker_round-lose r p h))
      (let top : word (p.thread_avail + (2 ^ 64 - 1)) ≡ 2 ^ 64 - 1 = omega (arith, z) in
        (top, ground (arith, top, small)))

pub worker_round-available :
    (r : Round) (p : ThreadPool)
    → r.available ≡ true
    → p.thread_avail < 2 ^ 64
    → worker_round r p ≡ p
unfolding worker_round busy_callback avail_callback
worker_round-available r p h small =
    rw h (ap (λ n. record p { thread_avail = n }) (omega (arith, small)))
