-- ===== src/Automata/Subset/Rounds.antt =====
-- The loops of to_dfa keep the invariant.
use whooshy.Common.{
  ℕ, ◌≡◌, refl, sym, ◌∙◌, true, ◌&&◌, List, ◌∷◌, arith, ◌==◌, ==_iff, Bool-cases, inl, inr,
}
use whooshy.Common.Result.{ok}
use whooshy.Common.Dict.{mem, get-put}
use whooshy.Automata.Labels.{Label, epsilon, any, char, label_keys, list_eq, list_eq_iff, set_keys}
use whooshy.Automata.Nfa.{Nfa}
use whooshy.Automata.Nfa
use whooshy.Automata.Dfa.{Dfa, add_transition, set_default_transition}
use whooshy.Automata.Dfa.Laws.{get-add_transition}
use whooshy.Automata.Subset.{States, Search, discover}
use whooshy.Automata.Subset.Termination.{missing_less}
use whooshy.Automata.Subset.Invariant.{
  targets, Sound, Has, Grows, Progress, Progress-refl, mark_final-Grows, mark_final-Sound,
}

abbrev pub Kept : Nfa → Search → Search → Type 0
Kept n s s' = Sound n s'.seen s'.dfa × Progress n s s'

mem_tail : (q new : States) (seen : List States) → mem q seen ≡ true → mem q (new ∷ seen) ≡ true
mem_tail q new seen h = rw h (ground arith)

pub discover-Kept :
    (n : Nfa) (new : States) (s : Search)
    → mem new (targets n) ≡ true
    → Sound n s.seen s.dfa
    → Kept n s (discover n new s) × (mem new (discover n new s).seen ≡ true)
unfolding discover
discover-Kept n new s target h = elim (Bool-cases (mem new s.seen)) [
  | inl old ↦ rw old ((h, Progress-refl n s), old)
  | inr fresh ↦
      let (h', marked_new) = mark_final-Sound n new s.seen s.dfa h in
      rw fresh (
        (
          record {
            explicit = λ q c r g. let (e, m) = h'.explicit q c r g in (e, mem_tail r new s.seen m);
            default = λ q r g. let (e, m, a) = h'.default q r g in (e, mem_tail r new s.seen m, a);
            finals = h'.finals;
            marked = λ q m f. elim (Bool-cases (list_eq q new)) [
              | inl same ↦
                  let e = (list_eq_iff q new).0 same in
                  let f' : Nfa.is_final n new ≡ true = rw e at f in rw e (marked_new f')
              | inr other ↦ h'.marked q (rw other at m) f
            ];
          },
          record {
            grows = mark_final-Grows n new s.dfa;
            kept = λ q m. mem_tail q new s.seen m;
            waits = λ q m. mem_tail q new s.frontier m;
            found = λ q m. elim (Bool-cases (list_eq q new)) [
              | inl same ↦ inr (rw same refl)
              | inr other ↦ inl (rw other at m)
            ];
            bounded = omega (arith, missing_less new (targets n) s.seen target fresh);
          },
        ),
        rw ((list_eq_iff new new).1 refl) refl,
      )
]

-- A default transition is added.
pub connect-default :
    (n : Nfa) (current new : States) (seen : List States) (d : Dfa States)
    → mem any (Nfa.get_labels n current) ≡ true
    → Nfa.next_state n current any ≡ ok new
    → mem new seen ≡ true
    → Sound n seen d
    → Sound n seen (set_default_transition current new d)
      × Grows d (set_default_transition current new d)
      × Has (set_default_transition current new d) current any
unfolding set_default_transition
connect-default n current new seen d label step m h = (
  record {
    explicit = h.explicit;
    default = λ q r g.
        let g' = sym (get-put q current new d.defaults) ∙ g in
        elim (Bool-cases (list_eq current q)) [
          | inl here ↦
              let e = (list_eq_iff current q).0 here in
              let one : new ≡ r = let g2 = rw here at g' in cc g2 in
              rw (← e, ← one) (step, m, label)
          | inr other ↦ h.default q r (rw other at g')
        ];
    finals = h.finals;
    marked = h.marked;
  },
  record { same_initial = refl; has = has; final = λ q x. x },
  (new, get-put current current new d.defaults ∙ rw ((list_eq_iff current current).1 refl) refl),
)
  where
    has : (q : States) (l : Label) → Has d q l → Has (set_default_transition current new d) q l
    has q epsilon x = tt
    has q any (r, g) = elim (Bool-cases (list_eq current q)) [
      | inl here ↦ (new, get-put q current new d.defaults ∙ rw here refl)
      | inr other ↦ (r, get-put q current new d.defaults ∙ rw other g)
    ]
    has q (char c) x = x

-- A transition by a character is added.
pub connect-char :
    (n : Nfa) (current : States) (c : ℕ) (new : States) (seen : List States) (d : Dfa States)
    → Nfa.next_state n current (char c) ≡ ok new
    → mem new seen ≡ true
    → Sound n seen d
    → Sound n seen (add_transition current (char c) new d)
      × Grows d (add_transition current (char c) new d)
      × Has (add_transition current (char c) new d) current (char c)
connect-char n current c new seen d step m h = (
  record {
    explicit = λ q c' r g.
        let g' = sym (get-add_transition current (char c) new d q (char c')) ∙ g in
        elim (Bool-cases (list_eq current q && c == c')) [
          | inl here ↦
              let e : current ≡ q = (list_eq_iff current q).0 (ground (arith, here)) in
              let e' : c ≡ c' = ground (arith, here) in
              let one : new ≡ r = let g2 = rw here at g' in cc g2 in rw (← e, ← e', ← one) (step, m)
          | inr other ↦ h.explicit q c' r (rw other at g')
        ];
    default = λ q r g. h.default q r (unfold add_transition in g);
    finals = λ q x. h.finals q (unfold add_transition in x);
    marked = λ q x f. unfold add_transition in h.marked q x f;
  },
  record {
    same_initial = unfold add_transition in refl;
    has = has;
    final = λ q x. unfold add_transition in x;
  },
  (
    new,
    get-add_transition current (char c) new d current (char c)
        ∙ rw ((list_eq_iff current current).1 refl, (==_iff c c).1 refl) refl,
  ),
)
  where
    has : (q : States) (l : Label) → Has d q l → Has (add_transition current (char c) new d) q l
    has q epsilon x = tt
    has q any x = unfold add_transition in x
    has q (char c') (r, g) = elim (Bool-cases (list_eq current q && c == c')) [
      | inl here ↦ (new, get-add_transition current (char c) new d q (char c') ∙ rw here refl)
      | inr other ↦ (r, get-add_transition current (char c) new d q (char c') ∙ rw other g)
    ]
