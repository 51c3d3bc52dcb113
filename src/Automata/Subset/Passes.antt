-- ===== src/Automata/Subset/Passes.antt =====
-- A pass of to_dfa over the labels of one set of states.
use whooshy.Common.{◌≡◌, refl, true, List, [], ◌∷◌, arith, Bool-cases, inl, inr}
use whooshy.Common.Result.{ok}
use whooshy.Common.Dict.{mem}
use whooshy.Automata.Labels.{
  Label, epsilon, any, char, label_eq, label_eq_iff, label_keys, set_keys,
}
use whooshy.Automata.Nfa.{Nfa}
use whooshy.Automata.Nfa
use whooshy.Automata.Dfa.{Dfa}
use whooshy.Automata.Subset.{States, Search, discover, connect, take_label, take_labels}
use whooshy.Automata.Subset.Invariant.{
  next_state-targets, Sound, Has, Grows, Progress, Progress-refl, Progress-trans, Grows-trans,
}
use whooshy.Automata.Subset.Rounds.{Kept, discover-Kept, connect-default, connect-char}

-- The transition is added after the set is discovered.
after_discovery :
    (n : Nfa) (s s' : Search) (d : Dfa States)
    → Progress n s s'
    → Grows s'.dfa d
    → Progress n s (record s' { dfa = d })
after_discovery n s s' d p g = record {
  grows = Grows-trans s.dfa s'.dfa d p.grows g;
  kept = p.kept;
  waits = p.waits;
  found = p.found;
  bounded = p.bounded;
}

take_label-Kept :
    (n : Nfa) (current : States) (l : Label) (s : Search)
    → mem l (Nfa.get_labels n current) ≡ true
    → Sound n s.seen s.dfa
    → (s' : Search) × (take_label n current l s ≡ ok s') × Kept n s s' × Has s'.dfa current l
unfolding take_label connect
take_label-Kept n current epsilon s m h = (s, refl, (h, Progress-refl n s), tt)
take_label-Kept n current any s m h =
    let (new, e, target) = next_state-targets n current any in
    let ((h', p), there) = discover-Kept n new s target h in
    let (h2, g, has) =
      connect-default n current new (discover n new s).seen (discover n new s).dfa m e there h' in
    (_, rw e refl, (h2, after_discovery n s (discover n new s) _ p g), has)
take_label-Kept n current (char c) s m h =
    let (new, e, target) = next_state-targets n current (char c) in
    let ((h', p), there) = discover-Kept n new s target h in
    let (h2, g, has) =
      connect-char n current c new (discover n new s).seen (discover n new s).dfa e there h' in
    (_, rw e refl, (h2, after_discovery n s (discover n new s) _ p g), has)

pub take_labels-Kept :
    (n : Nfa) (current : States) (ls : List Label) (s : Search)
    → ((l : Label) → mem l ls ≡ true → mem l (Nfa.get_labels n current) ≡ true)
    → Sound n s.seen s.dfa
    → (s' : Search) × (take_labels n current ls s ≡ ok s')
      × Kept n s s'
      × ((l : Label) → mem l ls ≡ true → Has s'.dfa current l)
unfolding take_labels
take_labels-Kept n current [] s m h = (s, refl, (h, Progress-refl n s), λ l x. absurd (cc x))
take_labels-Kept n current (k ∷ ls) s m h =
    let (s1, e1, (h1, p1), has1) =
      take_label-Kept n current k s (m k (rw ((label_eq_iff k k).1 refl) refl)) h in
    let (s2, e2, (h2, p2), has2) =
      take_labels-Kept n current ls s1 (λ l x. m l (rw x (ground arith))) h1 in
    (
      s2,
      rw e1 e2,
      (h2, Progress-trans n s s1 s2 p1 p2),
      λ l x. elim (Bool-cases (label_eq l k)) [
        | inl same ↦ let e = (label_eq_iff l k).0 same in rw e (p2.grows.has current k has1)
        | inr other ↦ has2 l (rw other at x)
      ],
    )
