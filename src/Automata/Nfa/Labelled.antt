-- ===== src/Automata/Nfa/Labelled.antt =====
-- NFA.get_labels and the steps by labels that no transition of a set has.
use whooshy.Common.{
  ℕ, ◌≡◌, refl, sym, ◌∙◌, true, false, ◌||◌, List, [], ◌∷◌, arith, ◌==◌, ==_iff, Bool-cases, inl,
  inr,
}
use whooshy.Common.Result.{ok}
use whooshy.Common.Dict.{mem, include, get, keys, mem-include}
use whooshy.Common.Sets.{member, update, intersects, update_same, member-update}
use whooshy.Automata.Labels.{Label, any, label_eq, label_eq_iff, label_keys, number_keys}
use whooshy.Automata.Nfa.{
  Transitions, Nfa, set_or, row, dests, include_all, labels_loop, get_labels, collect, expand,
  expand_loop, next_state, is_final,
}

mem-include_all :
    (l : Label) (ls found : List Label) → mem l (include_all ls found) ≡ (mem l ls || mem l found)
unfolding include_all
mem-include_all l [] found = refl
mem-include_all l (k ∷ ls) found =
    rw (mem-include_all l ls (include k found), mem-include l k found) (ground arith)

-- A label that is no key has no destinations.
get_absent :
    (l : Label) (xs : List (Label × List ℕ)) → mem l (keys xs) ≡ false → set_or (get l xs) ≡ []
get_absent l [] h = refl
get_absent l (p ∷ xs) h = elim (Bool-cases (label_eq p.0 l)) [
  | inl same ↦
      let e = (label_eq_iff p.0 l).0 same in
      let here : label_eq l p.0 ≡ true = (label_eq_iff l p.0).1 (sym e) in
      absurd (cc (rw here at h))
  | inr other ↦ rw other (get_absent l xs (ground (arith, h)))
]

labels_loop_absent :
    (t : Transitions) (l : Label) (states : List ℕ) (found : List Label)
    → mem l (labels_loop t states found) ≡ false
    → (mem l found ≡ false) × ((s : ℕ) → member s states ≡ true → dests t s l ≡ [])
unfolding labels_loop
labels_loop_absent t l [] found h = (h, λ s m. absurd (cc m))
labels_loop_absent t l (state ∷ states) found h =
    let (out, rest) = labels_loop_absent t l states (include_all (keys (row t state)) found) h in
    let out' = sym (mem-include_all l (keys (row t state)) found) ∙ out in
    (
      ground (arith, out'),
      λ s m. elim (Bool-cases (s == state)) [
        | inl e ↦
            let same : s ≡ state = (==_iff s state).0 e in
            rw same (get_absent l (row t state) (ground (arith, out')))
        | inr ne ↦ rest s (rw ne at m)
      ],
    )

pub Absent : Nfa → List ℕ → Label → Type 0
Absent n q l = (s : ℕ) → member s q ≡ true → dests n.transitions s l ≡ []

pub get_labels-Absent :
    (n : Nfa) (q : List ℕ) (l : Label) → mem l (get_labels n q) ≡ false → Absent n q l
unfolding get_labels Absent
get_labels-Absent n q l h = (labels_loop_absent n.transitions l q [] h).1

update_twice : (xs ys : List ℕ) → update (update xs ys) ys ≡ update xs ys
update_twice xs ys =
    update_same (update xs ys) ys (λ j m. rw (member-update j xs ys, m) (ground arith))

collect_other :
    (t : Transitions) (l : Label) (states found : List ℕ)
    → ((s : ℕ) → member s states ≡ true → dests t s l ≡ [])
    → collect t states l found ≡ collect t states any found
unfolding collect update
collect_other t l [] found h = refl
collect_other t l (state ∷ states) found h =
    let none_here : dests t state l ≡ [] = h state (rw ((==_iff state state).1 refl) refl) in
    rw (none_here, update_twice found (dests t state any))
      (collect_other t l states (update found (dests t state any))
        (λ s m. h s (rw m (ground arith))))

-- A label that no state of the set has counts as ANY.
pub next_state_other :
    (n : Nfa) (q : List ℕ) (l : Label) → Absent n q l → next_state n q l ≡ next_state n q any
unfolding next_state Absent
next_state_other n q l h = rw (collect_other n.transitions l q [] h) refl

collect_nothing :
    (t : Transitions) (states found : List ℕ)
    → ((s : ℕ) → member s states ≡ true → dests t s any ≡ [])
    → collect t states any found ≡ found
unfolding collect update
collect_nothing t [] found h = refl
collect_nothing t (state ∷ states) found h =
    let none_here : dests t state any ≡ [] = h state (rw ((==_iff state state).1 refl) refl) in
    rw none_here (collect_nothing t states found (λ s m. h s (rw m (ground arith))))

pub next_state_nothing : (n : Nfa) (q : List ℕ) → Absent n q any → next_state n q any ≡ ok []
unfolding next_state Absent expand expand_loop
next_state_nothing n q h = rw (collect_nothing n.transitions q [] h) refl

intersects-nil : (xs : List ℕ) → intersects xs [] ≡ false
unfolding intersects
intersects-nil [] = refl
intersects-nil (x ∷ xs) = intersects-nil xs

pub is_final-nil : (n : Nfa) → is_final n [] ≡ false
unfolding is_final
is_final-nil n = intersects-nil n.final_states
