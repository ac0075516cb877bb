-- ===== src/ThrPool/Growth.antt =====
-- What the growing of the pool adds to it.
use crinit.Base.{
  ℕ, zero, suc, ◌+◌, ◌-◌, ◌^◌, ◌≤◌, ◌<◌, ◌≡◌, refl, Bool, true, false, not, ◌&&◌, leb,
  if◌then◌else◌, arith, Status, ok, err,
}
use crinit.ThrPool.{ThreadPool, Answers, word, grow_loop, grow}

-- Growing adds as many available workers as workers.
pub record Grows (p p' : ThreadPool) : Type 0 where
  pub added : ℕ
  pub size : p'.pool_size ≡ p.pool_size + added
  pub avail : p'.thread_avail ≡ p.thread_avail + added
  pub small : p'.pool_size < 2 ^ 64
  pub rest : p' ≡ record p { pool_size = p'.pool_size; thread_avail = p'.thread_avail }

pub word_small : (n : ℕ) → n < 2 ^ 64 → word n ≡ n
word_small n h = omega (arith, h)

Grows-refl : (p : ThreadPool) → p.pool_size < 2 ^ 64 → Grows p p
Grows-refl p s = record {
  added = 0;
  size = omega arith;
  avail = omega arith;
  small = s;
  rest = refl;
}

Grows-suc :
    (p q : ThreadPool)
    → p.pool_size + 1 < 2 ^ 64
    → p.thread_avail ≤ p.pool_size
    → Grows
        (record p { pool_size = word (p.pool_size + 1); thread_avail = word (p.thread_avail + 1) })
        q
    → Grows p q
Grows-suc p q s a g = record {
  added = suc (g.added);
  size = omega (arith, g.size, word_small (p.pool_size + 1) s);
  avail = omega (arith, g.avail, s, a);
  small = g.small;
  rest = g.rest;
}

-- What the loop gives that starts at `i` with `n` threads to make
Made : ThreadPool → ℕ → ℕ → Status × ThreadPool → Type 0
Made p i n r = Grows p r.1 × (r.0 ≡ ok → r.1.pool_size ≡ i + n)

pub either_way :
    (Q : Status × ThreadPool → Type 0) (b : Bool) (x y : Status × ThreadPool)
    → (b ≡ true → Q x)
    → (b ≡ false → Q y)
    → Q (if b then x else y)
either_way Q true x y f g = f refl
either_way Q false x y f g = g refl

abbrev one_more : ThreadPool → ThreadPool
one_more p = record p {
  pool_size = word (p.pool_size + 1);
  thread_avail = word (p.thread_avail + 1);
}

grow_loop-Made :
    (create : ℕ → Bool)
    → ((i : ℕ) → create i ≡ true → i + 1 < 2 ^ 64)
    → (n i : ℕ) (p : ThreadPool) → p.pool_size ≡ i
    → p.thread_avail ≤ i
    → i < 2 ^ 64
    → Made p i n (grow_loop create n i p)
unfolding grow_loop Made
grow_loop-Made create lim zero i p e a s =
    (Grows-refl p (omega (arith, e, s)), λ _. omega (arith, e))
grow_loop-Made create lim (suc n) i p e a s =
    either_way (Made p i (suc n)) (create i) (grow_loop create n (suc i) (one_more p)) (err, p)
      (λ made.
        let big : i + 1 < 2 ^ 64 = lim i made in
        let m : Made (one_more p) (suc i) n (grow_loop create n (suc i) (one_more p)) =
          grow_loop-Made create lim n (suc i) (one_more p)
            (omega (arith, word_small (i + 1) big, e)) (omega (arith, a, e, big))
            (omega (arith, big)) in
        (
          Grows-suc p (grow_loop create n (suc i) (one_more p)).1 (omega (arith, big, e))
              (omega (arith, a, e)) m.0,
          λ r. omega (arith, m.1 r),
        ))
      (λ _. (Grows-refl p (omega (arith, e, s)), λ r. ground (arith, r)))

pub grow-Made :
    (os : Answers) (new_size : ℕ) (p : ThreadPool)
    → ((i : ℕ) → os.create i ≡ true → i + 1 < 2 ^ 64)
    → p.thread_avail ≤ p.pool_size
    → p.pool_size < 2 ^ 64
    → Grows p (grow os new_size p).1
      × ((grow os new_size p).0 ≡ ok
          → ((grow os new_size p).1.pool_size ≡ new_size) × (p.pool_size < new_size))
unfolding grow Made
grow-Made os new_size p lim a s =
    either_way
      (λ r. Grows p r.1 × (r.0 ≡ ok → (r.1.pool_size ≡ new_size) × (p.pool_size < new_size)))
      (os.mutex_lock && not (leb new_size p.pool_size) && os.attributes)
      (grow_loop os.create (new_size - p.pool_size) p.pool_size p) (err, p)
      (λ test.
        let larger : p.pool_size < new_size = ground (arith, test) in
        let m : Made p p.pool_size (new_size - p.pool_size)
            (grow_loop os.create (new_size - p.pool_size) p.pool_size p) =
          grow_loop-Made os.create lim (new_size - p.pool_size) p.pool_size p refl a s in
        (m.0, λ r. (omega (arith, m.1 r, larger), larger)))
      (λ _. (Grows-refl p s, λ r. ground (arith, r)))

grow_loop-ok :
    (create : ℕ → Bool) (n i : ℕ) (p : ThreadPool)
    → ((j : ℕ) → j < i + n → create j ≡ true)
    → (grow_loop create n i p).0 ≡ ok
unfolding grow_loop
grow_loop-ok create zero i p all = refl
grow_loop-ok create (suc n) i p all =
    either_way (λ r. r.0 ≡ ok) (create i) (grow_loop create n (suc i) (one_more p)) (err, p)
      (λ _. grow_loop-ok create n (suc i) (one_more p) (λ j h. all j (omega (arith, h))))
      (λ refused. ground (arith, refused, all i (omega arith)))

pub grow-ok :
    (os : Answers) (new_size : ℕ) (p : ThreadPool)
    → p.pool_size < new_size
    → os.mutex_lock ≡ true
    → os.attributes ≡ true
    → ((j : ℕ) → j < new_size → os.create j ≡ true)
    → (grow os new_size p).0 ≡ ok
unfolding grow
grow-ok os new_size p larger l a all =
    either_way (λ r. r.0 ≡ ok) (os.mutex_lock && not (leb new_size p.pool_size) && os.attributes)
      (grow_loop os.create (new_size - p.pool_size) p.pool_size p) (err, p)
      (λ _.
        grow_loop-ok os.create (new_size - p.pool_size) p.pool_size p
          (λ j h. all j (omega (arith, h, larger))))
      (λ test. ground (arith, test, l, a, larger))
