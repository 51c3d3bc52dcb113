-- ===== src/Automata/Dfa/Laws.antt =====
-- The transitions of a deterministic automaton after one is added.
use whooshy.Common.{◌≡◌, refl, ◌&&◌, some, if◌then◌else◌, Bool-cases, inl, inr}
use whooshy.Common.Dict.{Eq, get, put, get-put}
use whooshy.Automata.Labels.{Label, label_keys}
use whooshy.Automata.Dfa.{Dfa, arcs, add_transition}

module _ {K : Type 0} ⦃e : Eq K⦄ where
  pub get-add_transition :
      (src : K) (l : Label) (dest : K) (d : Dfa K) (q : K) (l' : Label)
      → get l' (arcs q (add_transition src l dest d))
        ≡ (if e.eq src q && label_keys.eq l l' then some dest else get l' (arcs q d))
  unfolding add_transition
  get-add_transition src l dest d q l' =
      rw (get-put q src (put l dest (arcs src d)) d.transitions) (elim (Bool-cases (e.eq src q)) [
        | inl here ↦
            let same = (e.eq_iff src q).0 here in
            rw (here, get-put l' l dest (arcs src d), same) refl
        | inr other ↦ rw other refl
      ])
