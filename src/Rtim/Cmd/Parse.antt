-- ===== src/Rtim/Cmd/Parse.antt =====
-- The reading of a command gives what the message says, and reads back what was printed.
use crinit.Base.{
  ℕ, zero, suc, ◌≡◌, ◌⊎◌, inl, inr, refl, sym, ap, subst, ◌∙◌, ◌≢◌, Bool, true, false, not, ◌==◌,
  if◌then◌else◌, Option, none, some, List, [], ◌∷◌, length, arith, Bool-cases,
}
use crinit.Base.Str.{Str}
use crinit.Rtim.{RtimOp, delimiter, rtim_op_get_by_op_str, op_str}
use crinit.Rtim.Names.{rtim_op_get_by_op_str-op_str}
use crinit.Rtim.Fields.{field, more, nonempty}
use crinit.Rtim.Cmd.{
  Parsed, refused, parsed, skip_op, skip_repeated, count_args, after, strtok, tokens, keep_token,
  of_tokens, parse_args, parse_rtim_cmd,
}

-- The arguments are counted, in the middle of a field and at a delimiter.
count_args-more :
    (s : Str)
    → (count_args s ≡ length (nonempty (more s)))
      × (count_args (delimiter ∷ s) ≡ length (nonempty (field s ∷ more s)))
unfolding count_args
count_args-more [] = (refl, refl)
count_args-more (x ∷ s) = ground (arith, count_args-more s)

-- What follows the first field
more-after : (s : Str) → nonempty (field (after s) ∷ more (after s)) ≡ nonempty (more s)
more-after [] = refl
more-after (x ∷ s) = ground (arith, more-after s)

-- One call of `strtok_r`
strtok-nonempty :
    (s : Str)
    → nonempty (field s ∷ more s) ≡ elim (strtok s) as (λ _. List Str) [
      | none ↦ []
      | some p ↦ p.0 ∷ nonempty (field p.1 ∷ more p.1)
    ]
unfolding strtok
strtok-nonempty [] = refl
strtok-nonempty (x ∷ s) = ground (arith, strtok-nonempty s, more-after s)

-- The loop over the tokens, when there are as many as it asks for
tokens-nonempty :
    (n : ℕ) (s : Str)
    → length (nonempty (field s ∷ more s)) ≡ n
    → tokens n s ≡ some (nonempty (field s ∷ more s))
unfolding tokens
tokens-nonempty zero s e = ap some (sym (empty (nonempty (field s ∷ more s)) e))
  where
    empty : (l : List Str) → length l ≡ 0 → l ≡ []
    empty [] e = refl
    empty (x ∷ l) e = absurd (omega (arith, e))
tokens-nonempty (suc n) s e = go (strtok s) refl (strtok-nonempty s) (tokens-nonempty n)
  where
    go :
        (t : Option (Str × Str))
        → strtok s ≡ t
        → nonempty (field s ∷ more s)
          ≡ elim t as (λ _. List Str) [ none ↦ [] | some p ↦ p.0 ∷ nonempty (field p.1 ∷ more p.1) ]
        → ((u : Str)
            → length (nonempty (field u ∷ more u)) ≡ n
            → tokens n u ≡ some (nonempty (field u ∷ more u)))
        → tokens (suc n) s ≡ some (nonempty (field s ∷ more s))
    go none h k ih = absurd (omega (arith, e, ap length k))
    go (some p) h k ih =
        let rest : tokens n p.1 ≡ some (nonempty (field p.1 ∷ more p.1)) =
          ih p.1 (omega (arith, e, ap length k)) in
        ap
          (λ t. elim t as (λ _. Option (List Str)) [
            | none ↦ none
            | some q ↦ keep_token q.0 (tokens n q.1)
          ])
          h
        ∙ ap (keep_token p.0) rest
        ∙ ap some (sym k)

-- The two loops that skip
skip_op-after :
    (s : Str)
    → ((skip_op s ≡ []) × (more s ≡ []))
      ⊎ ((skip_op s ≡ delimiter ∷ after s) × (more s ≡ field (after s) ∷ more (after s)))
unfolding skip_op
skip_op-after [] = inl (refl, refl)
skip_op-after (x ∷ s) = ground (arith, skip_op-after s)

skip_repeated-nonempty :
    (s : Str)
    → (u : Str) × (skip_repeated (delimiter ∷ s) ≡ delimiter ∷ u)
      × (nonempty (field u ∷ more u) ≡ nonempty (field s ∷ more s))
unfolding skip_repeated
skip_repeated-nonempty [] = ([], refl, refl)
skip_repeated-nonempty (x ∷ s) = elim (Bool-cases (x == delimiter)) [
  | inl e ↦
      let ih : (u : Str) × (skip_repeated (delimiter ∷ s) ≡ delimiter ∷ u)
          × (nonempty (field u ∷ more u) ≡ nonempty (field s ∷ more s)) =
        skip_repeated-nonempty s in
      let h : skip_repeated (x ∷ s) ≡ delimiter ∷ ih.0 =
        ap (λ y. skip_repeated (y ∷ s)) (ground (arith, e)) ∙ ih.1 in
      (ih.0, ground (arith, e, h), ground (arith, e, ih.2))
  | inr e ↦ (x ∷ s, ground (arith, e), refl)
]

-- What comes of a message with these arguments, by the two allocations
unfoldable pub given : Bool → Bool → RtimOp → List Str → Parsed
given false b op l = refused
given true b op [] = parsed (record { op = op; args = [] })
given true false op (a ∷ l) = refused
given true true op (a ∷ l) = parsed (record { op = op; args = a ∷ l })

parse_args-nonempty :
    (alloc : ℕ → Bool) (op : RtimOp) (u : Str)
    → parse_args alloc op (delimiter ∷ u)
      ≡ given (alloc 0) (alloc 1) op (nonempty (field u ∷ more u))
unfolding parse_args given
parse_args-nonempty alloc op u =
    subst
      (λ n.
        tokens n u ≡ some (nonempty (field u ∷ more u))
        → chain n ≡ given (alloc 0) (alloc 1) op (nonempty (field u ∷ more u)))
      (sym (count_args-more u).1) (go (alloc 0) (alloc 1) (nonempty (field u ∷ more u)))
      (tokens-nonempty (count_args (delimiter ∷ u)) u (sym (count_args-more u).1))
  where
    chain_of : Bool → Bool → ℕ → Parsed
    chain_of a b n =
        if not a
        then refused
        else if n == 0
        then parsed (record { op = op; args = [] })
        else if not b
        then refused
        else of_tokens op (tokens n u)

    chain : ℕ → Parsed
    chain = chain_of (alloc 0) (alloc 1)

    go :
        (a b : Bool) (l : List Str)
        → tokens (length l) u ≡ some l
        → chain_of a b (length l) ≡ given a b op l
    go false b l t = refl
    go true b [] t = refl
    go true false (x ∷ l) t = ground arith
    go true true (x ∷ l) t = ground (arith, ap (of_tokens op) t)

parse_args-end :
    (alloc : ℕ → Bool) (op : RtimOp) → parse_args alloc op [] ≡ given (alloc 0) (alloc 1) op []
unfolding parse_args given count_args
parse_args-end alloc op = elim (Bool-cases (alloc 0)) [
  | inl e ↦ ground (arith, e)
  | inr e ↦ ground (arith, e)
]

-- From the end of the operation's name
parse_args-more :
    (alloc : ℕ → Bool) (op : RtimOp) (s : Str)
    → parse_args alloc op (skip_repeated (skip_op s))
      ≡ given (alloc 0) (alloc 1) op (nonempty (more s))
unfolding skip_repeated
parse_args-more alloc op s = elim (skip_op-after s) [
  | inl (e, m) ↦
      ap (λ p. parse_args alloc op (skip_repeated p)) e
      ∙ parse_args-end alloc op
      ∙ ap (λ l. given (alloc 0) (alloc 1) op (nonempty l)) (sym m)
  | inr (e, m) ↦
      let r : (u : Str) × (skip_repeated (delimiter ∷ after s) ≡ delimiter ∷ u)
          × (nonempty (field u ∷ more u) ≡ nonempty (field (after s) ∷ more (after s))) =
        skip_repeated-nonempty (after s) in
      ap (parse_args alloc op) (ap skip_repeated e ∙ r.1)
      ∙ parse_args-nonempty alloc op r.0
      ∙ ap (given (alloc 0) (alloc 1) op) (r.2 ∙ ap nonempty (sym m))
]

-- Whatever the message and whichever allocation fails, the reading ends and sets every argument that
-- it counts: a message whose first field is not the name of an operation is refused, and any other
-- one gives the operation with the fields that are not empty, unless the array's memory, or the
-- arguments' memory when there are arguments, cannot be had, in which case it is refused.
pub parse_rtim_cmd-given :
    (alloc : ℕ → Bool) (s : Str)
    → ((op : RtimOp)
        → field s ≡ op_str op
        → parse_rtim_cmd alloc s ≡ given (alloc 0) (alloc 1) op (nonempty (more s)))
      × (((op : RtimOp) → field s ≢ op_str op) → parse_rtim_cmd alloc s ≡ refused)
unfolding parse_rtim_cmd
parse_rtim_cmd-given alloc s = (
  λ op h.
      ap
        (λ o. elim o as (λ _. Parsed) [
          | none ↦ refused
          | some p ↦ parse_args alloc p (skip_repeated (skip_op s))
        ])
        ((rtim_op_get_by_op_str-op_str s op).1 h)
      ∙ parse_args-more alloc op s,
  λ h. go (rtim_op_get_by_op_str s) refl h,
)
  where
    go :
        (o : Option RtimOp)
        → rtim_op_get_by_op_str s ≡ o
        → ((op : RtimOp) → field s ≢ op_str op)
        → elim o as (λ _. Parsed) [
          | none ↦ refused
          | some p ↦ parse_args alloc p (skip_repeated (skip_op s))
        ]
          ≡ refused
    go none e h = refl
    go (some op) e h = absurd (h op ((rtim_op_get_by_op_str-op_str s op).0 e))
