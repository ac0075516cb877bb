-- ===== src/Conf/Ini/RoundTrip.antt =====
-- Options that are written to a configuration file are read back by `crinitParseConf`.
use crinit.Base.{
  ℕ, suc, ◌+◌, ◌-◌, ◌<◌, ◌≡◌, ◌≢◌, refl, ap, ◌∙◌, Bool, true, false, List, [], ◌∷◌, ◌++◌, Option,
  none, some, ◌==◌, ltb, length, map, All, if◌then◌else◌, arith,
}
use crinit.Base.Str.{Str, take-length}
use crinit.Conf.StrArr.{good, Mem, part}
use crinit.Conf.Value.{StrTo}
use crinit.Conf.Text.{split_at}
use crinit.Conf.Ini.{
  are_spaces, to_quotes, match_quoted_config, Parser, count_for, named, subscript, add_entry,
  ini_handler, run_handler, in_order, conf_list, parse_conf,
}

-- An option as it is written: with the brackets of a legacy array or without
abbrev pub Written : Type 0
Written = Bool × Str × Str

abbrev key_text : Bool → Str → Str
key_text is_array key = if is_array then key ++ b'[' ∷ b']' ∷ [] else key

abbrev pub pair : Written → Str × Str
pair w = (key_text w.0 w.1, b'"' ∷ w.2 ++ b'"' ∷ [])

abbrev pub option : Written → Option (Str × Str)
option w = some (w.1, w.2)

-- A key is not empty and has no bracket.
abbrev pub HasKey : Written → Type 0
HasKey w = (0 < length w.1) × All (λ c. c ≢ b'[') w.1

to_quotes-quoted : (v : Str) → to_quotes (v ++ b'"' ∷ []) ≡ some v
unfolding to_quotes are_spaces
to_quotes-quoted [] = refl
to_quotes-quoted (c ∷ v) = rw (to_quotes-quoted v) refl

match_quoted_config-quoted : (v : Str) → match_quoted_config (b'"' ∷ v ++ b'"' ∷ []) ≡ some v
unfolding match_quoted_config
match_quoted_config-quoted v = to_quotes-quoted v

length-array : (k : Str) → length (k ++ b'[' ∷ b']' ∷ []) ≡ length k + 2
length-array [] = refl
length-array (c ∷ k) = omega (arith, length-array k)

==-ne : (a b : ℕ) → a ≢ b → (a == b) ≡ false
==-ne a b h = ground (arith, h)

split_at-none : (k : Str) → All (λ c. c ≢ b'[') k → split_at b'[' k ≡ none
unfolding split_at
split_at-none [] h = refl
split_at-none (c ∷ k) h = rw (==-ne c b'[' h.0) (rw (split_at-none k h.1) refl)

split_at-array : (k r : Str) → All (λ c. c ≢ b'[') k → split_at b'[' (k ++ b'[' ∷ r) ≡ some (k, r)
unfolding split_at
split_at-array [] r h = refl
split_at-array (c ∷ k) r h = rw (==-ne c b'[' h.0) (rw (split_at-array k r h.1) refl)

is_long : (n : ℕ) → 0 < n → ltb 2 (n + 2) ≡ true
is_long n h = ground (arith, h)

minus_two : (n : ℕ) → n + 2 - 2 ≡ n
minus_two n = omega arith

-- The elements behind `es` when some options were added
onto : List Written → List (Str × Str) → List (Str × Str)
onto [] es = es
onto (w ∷ ws) es = onto ws ((w.1, w.2) ∷ es)

conf_list-onto :
    (ws : List Written) (e : Str × Str) (es : List (Str × Str))
    → conf_list (onto ws (e ∷ es)) ≡ in_order es (some e ∷ map option ws)
unfolding onto conf_list in_order
conf_list-onto [] e es = refl
conf_list-onto (w ∷ ws) e es = conf_list-onto ws (w.1, w.2) (e ∷ es)

module _ (strtoul : Str → StrTo ℕ) (mem : Mem) (enough : (path : List ℕ) → mem path ≡ true) where
  -- A step with its new counter
  abbrev Adds : Written → Parser → Bool × Parser → Type 0
  Adds w p r = (r.0 ≡ true) × (r.1.entries ≡ (w.1, w.2) ∷ p.entries)

  add_entry-Adds :
      (i n : ℕ) (w : Written) (p : Parser)
      → Adds w p (add_entry strtoul (part mem i) (pair w).1 p (named w.1 n))
  unfolding add_entry
  add_entry-Adds i n w p = rw (enough (i ∷ 0 ∷ [])) (
      rw (enough (i ∷ 1 ∷ []))
        (rw (enough (i ∷ 2 ∷ [])) (rw (match_quoted_config-quoted w.2) (refl, refl))))

  subscript-key :
      (w : Written) (p : Parser)
      → HasKey w
      → (n : ℕ) × (subscript strtoul p (pair w).0 (split_at b'[' (pair w).0) ≡ named w.1 n)
  unfolding subscript
  subscript-key (false, k, v) p h = (p.key_array_count, rw (split_at-none k h.1) refl)
  subscript-key (true, k, v) p h = (
    suc (count_for p k),
    rw (split_at-array k (b']' ∷ []) h.1) (
        rw (length-array k) (
          rw (is_long (length k) h.0)
            (rw (minus_two (length k)) (rw (take-length k (b'[' ∷ b']' ∷ [])) refl)))),
  )

  ini_handler-Adds :
      (i : ℕ) (w : Written) (p : Parser)
      → HasKey w
      → Adds w p (ini_handler strtoul (part mem i) (pair w).0 (pair w).1 p)
  unfolding ini_handler
  ini_handler-Adds i w p h = let (n, e) = subscript-key w p h in rw e (add_entry-Adds i n w p)

  run_handler-onto :
      (i : ℕ) (ws : List Written) (p : Parser)
      → All HasKey ws
      → ((run_handler strtoul mem i (map pair ws) p).0 ≡ true)
        × ((run_handler strtoul mem i (map pair ws) p).1.entries ≡ onto ws p.entries)
  unfolding run_handler onto
  run_handler-onto i [] p h = (refl, refl)
  run_handler-onto i (w ∷ ws) p h =
      let step : Bool × Parser = ini_handler strtoul (part mem i) (pair w).0 (pair w).1 p in
      let a : Adds w p step = ini_handler-Adds i w p h.0 in
      let r = run_handler-onto (suc i) ws step.1 h.1 in
      (rw a.0 r.0, r.1 ∙ ap (λ (es : List (Str × Str)). onto ws es) a.1)

-- While memory is there, options with keys that are not empty and have no bracket, whose values are written
-- in quotes and whose keys are written plainly or with the empty brackets of a legacy array, are read
-- back in their order with their keys and values, whatever bytes the values have.
pub parse_conf-written :
    (strtoul : Str → StrTo ℕ) (mem : Mem) (w : Written) (ws : List Written)
    → ((path : List ℕ) → mem path ≡ true)
    → All HasKey (w ∷ ws)
    → parse_conf strtoul mem (map pair (w ∷ ws)) true ≡ good (map option (w ∷ ws))
unfolding parse_conf onto in_order
parse_conf-written strtoul mem w ws enough h =
    let start : Parser = record { entries = []; is_grown = false; key_array_count = 0 } in
    let (ran, entries) =
      run_handler-onto strtoul (part mem 1) (λ path. enough (1 ∷ path)) 0 (w ∷ ws) start h in
    rw (enough (0 ∷ [])) (
      rw ran (
        ap (λ (es : List (Str × Str)). good (conf_list es)) entries
        ∙ ap (λ (l : List (Option (Str × Str))). good l) (conf_list-onto ws (w.1, w.2) [])))
