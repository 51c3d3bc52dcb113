-- ===== src/Automata/Product.antt =====
-- fsa.py: product of two automata, and FSA.generate_all.
use whooshy.Common.{
  ℕ, zero, suc, ◌≡◌, ◌↔◌, arith, Bool, true, false, ◌&&◌, ◌||◌, Option, none, some, List, [], ◌∷◌,
  ◌++◌, if◌then◌else◌,
}
use whooshy.Common.Result.{Result, ok, err, key_error, stuck, or_raise, ◌>>=◌}
use whooshy.Common.Dict.{Eq, mem, get, keys}
use whooshy.Automata.Labels.{Label, char, label_keys, number_keys}
use whooshy.Automata.Valid.{sort_labels}
use whooshy.Automata.Dfa.{Dfa, new_dfa, add_transition, add_final_state, is_final, next_state, arcs}

module _ {A : Type 0} ⦃e : Eq A⦄ where
  abbrev pub option_eq : Option A → Option A → Bool
  option_eq none none = true
  option_eq (some a) (some b) = e.eq a b
  option_eq _ _ = false

  pub option_eq_iff : (a b : Option A) → (option_eq a b ≡ true) ↔ (a ≡ b)
  option_eq_iff none none = ground arith
  option_eq_iff none (some b) = ground arith
  option_eq_iff (some a) none = ground arith
  option_eq_iff (some a) (some b) = ground (arith, e.eq_iff a b)

  instance abbrev pub option_keys : Eq (Option A)
  option_keys = record { eq = option_eq; eq_iff = option_eq_iff }

module _ {A B : Type 0} ⦃ea : Eq A⦄ ⦃eb : Eq B⦄ where
  abbrev pub pair_eq : A × B → A × B → Bool
  pair_eq p q = ea.eq p.0 q.0 && eb.eq p.1 q.1

  pub pair_eq_iff : (p q : A × B) → (pair_eq p q ≡ true) ↔ (p ≡ q)
  pair_eq_iff (a, b) (c, d) = ground (arith, ea.eq_iff a c, eb.eq_iff b d)

  instance abbrev pub pair_keys : Eq (A × B)
  pair_keys = record { eq = pair_eq; eq_iff = pair_eq_iff }

abbrev pub is_some : {A : Type 0} → Option A → Bool
is_some none = false
is_some (some a) = true

-- The loop of generate_all over the labels.
pub generate_each : (ℕ → Result (List (List ℕ))) → List ℕ → Result (List (List ℕ))
generate_each f [] = ok []
generate_each f (c ∷ ls) = do found ← f c; more ← generate_each f ls; ok (found ++ more)

-- `dfa.next_state` and `dfa.is_final` at a state that may be None.
module _ {K : Type 0} ⦃e : Eq K⦄ where
  abbrev pub next_or_none : Dfa K → Option K → Label → Option K
  next_or_none d none label = none
  next_or_none d (some s) label = next_state d s label

  abbrev pub final_or_none : Dfa K → Option K → Bool
  final_or_none d none = false
  final_or_none d (some s) = is_final d s

  -- `dfa.transitions[state]`
  abbrev pub arcs_of : Dfa K → Option K → Result (List (Label × K))
  arcs_of d none = err key_error
  arcs_of d (some s) = or_raise key_error (get s d.transitions)

  abbrev pub or_start : Dfa K → Option K → K
  or_start d none = d.initial
  or_start d (some s) = s

  -- FSA.generate_all: it goes on for ever where the transitions have a cycle.
  unfoldable pub generate_all : ℕ → Dfa K → K → List ℕ → Result (List (List ℕ))
  unfolding generate_each next_state is_final sort_labels
  generate_all zero d state sofar = err stuck
  generate_all (suc fuel) d state sofar = do
    strings ←
        generate_each
          (λ c. generate_all fuel d (or_start d (next_state d state (char c))) (sofar ++ c ∷ []))
          (sort_labels (keys (arcs state d)))
    ok (if is_final d state then sofar ∷ strings else strings)

pub common_labels : List Label → List Label → List Label
common_labels [] other = []
common_labels (l ∷ ls) other =
    let rest = common_labels ls other in if mem l other then l ∷ rest else rest

module _ {A B : Type 0} ⦃ea : Eq A⦄ ⦃eb : Eq B⦄ where
  -- The loop over the labels, which changes state1 and state2 as it goes: each label is followed
  -- from the states that the label before it led to.
  pub product_labels :
      (Bool → Bool → Bool)
      → Dfa A
      → Dfa B
      → Option A × Option B
      → List Label
      → Option A
      → Option B
      → Dfa (Option A × Option B) × List (Option A × Option B)
      → Dfa (Option A × Option B) × List (Option A × Option B)
  unfolding add_transition add_final_state next_state is_final
  product_labels op d1 d2 src [] state1 state2 s = s
  product_labels op d1 d2 src (label ∷ labels) state1 state2 (dfa, stack) =
      let state1' = next_or_none d1 state1 label in
      let state2' = next_or_none d2 state2 label in
      let dest : Option A × Option B = (state1', state2') in
      let linked = add_transition src label dest dfa in
      let marked =
        if op (final_or_none d1 state1') (final_or_none d2 state2')
        then add_final_state dest linked
        else linked in
      let next =
        if op (is_some state1') (is_some state2') then (marked, dest ∷ stack) else (dfa, stack) in
      product_labels op d1 d2 src labels state1' state2' next

  -- No set of seen states is kept: the loop goes on for ever where there is a cycle.
  pub product_loop :
      ℕ
      → (Bool → Bool → Bool)
      → Dfa A
      → Dfa B
      → Dfa (Option A × Option B) × List (Option A × Option B)
      → Result (Dfa (Option A × Option B))
  unfolding product_labels
  product_loop zero op d1 d2 s = err stuck
  product_loop (suc fuel) op d1 d2 (dfa, []) = ok dfa
  product_loop (suc fuel) op d1 d2 (dfa, src ∷ stack) = do
    trans1 ← arcs_of d1 src.0
    trans2 ← arcs_of d2 src.1
    product_loop fuel op d1 d2 (
        product_labels op d1 d2 src (common_labels (keys trans1) (keys trans2)) src.0 src.1
          (dfa, stack))

  unfoldable pub product :
      ℕ → (Bool → Bool → Bool) → Dfa A → Dfa B → Result (Dfa (Option A × Option B))
  unfolding product_loop new_dfa
  product fuel op d1 d2 =
      let start : Option A × Option B = (some d1.initial, some d2.initial) in
      product_loop fuel op d1 d2 (new_dfa start, start ∷ [])

  unfoldable pub intersection : ℕ → Dfa A → Dfa B → Result (Dfa (Option A × Option B))
  unfolding product
  intersection fuel d1 d2 = product fuel (λ a b. a && b) d1 d2

  pub union : ℕ → Dfa A → Dfa B → Result (Dfa (Option A × Option B))
  unfolding product
  union fuel d1 d2 = product fuel (λ a b. a || b) d1 d2
