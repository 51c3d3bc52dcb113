-- ===== src/Automata/Subset/Termination.antt =====
-- There are finitely many sets of states.
use whooshy.Common.{
  ℕ, suc, ◌+◌, ◌^◌, ◌≤◌, ◌<◌, ◌≡◌, refl, sym, ◌∙◌, ap, true, false, ◌||◌, List, [], ◌∷◌, ◌++◌, map,
  arith, length, length-append, if◌then◌else◌, ◌==◌, ==_iff, Bool-cases, inl, inr,
}
use whooshy.Common.Dict.{mem}
use whooshy.Common.Sets.{member, Rises}
use whooshy.Automata.Labels.{list_eq, list_eq_iff, set_keys}
use whooshy.Automata.Nfa.Steps.{Within}
use native.Mathlib.Nat.{pow-suc}

pub subsets : List ℕ → List (List ℕ)
subsets [] = [] ∷ []
subsets (u ∷ us) = map (λ (s : List ℕ). u ∷ s) (subsets us) ++ subsets us

length-map_cons : (u : ℕ) (ss : List (List ℕ)) → length (map (λ (s : List ℕ). u ∷ s) ss) ≡ length ss
length-map_cons u [] = refl
length-map_cons u (s ∷ ss) = ap suc (length-map_cons u ss)

pub length-subsets : (us : List ℕ) → length (subsets us) ≡ 2 ^ length us
unfolding subsets
length-subsets [] = refl
length-subsets (u ∷ us) =
    length-append (map (λ (s : List ℕ). u ∷ s) (subsets us)) (subsets us)
    ∙ omega (arith, length-map_cons u (subsets us), length-subsets us, pow-suc 2 (length us))

mem-append : (s : List ℕ) (xs ys : List (List ℕ)) → mem s (xs ++ ys) ≡ (mem s xs || mem s ys)
mem-append s [] ys = refl
mem-append s (x ∷ xs) ys = rw (mem-append s xs ys) (ground arith)

mem-map_cons :
    (u : ℕ) (s : List ℕ) (ss : List (List ℕ))
    → mem s ss ≡ true
    → mem (u ∷ s) (map (λ (s : List ℕ). u ∷ s) ss) ≡ true
mem-map_cons u s [] h = h
mem-map_cons u s (x ∷ ss) h = elim (Bool-cases (list_eq s x)) [
  | inl same ↦ rw ((==_iff u u).1 refl, same) refl
  | inr other ↦ rw (mem-map_cons u s ss (rw other at h)) (ground arith)
]

member-low : (lo j : ℕ) (xs : List ℕ) → Rises lo xs → member j xs ≡ true → lo ≤ j
member-low lo j [] r m = absurd (cc m)
member-low lo j (x ∷ xs) r m = elim (Bool-cases (j == x)) [
  | inl e ↦ ground (arith, e)
  | inr ne ↦ let h = member-low (x + 1) j xs r.1 (rw ne at m) in omega arith
]

member_head : (x : ℕ) (xs : List ℕ) → member x (x ∷ xs) ≡ true
member_head x xs = ground arith

member_rest : (j u : ℕ) (us : List ℕ) → u < j → member j (u ∷ us) ≡ true → member j us ≡ true
member_rest j u us h m = ground arith

-- A set of members of a set is one of its subsets.
pub mem-subsets :
    (lo k : ℕ) (s us : List ℕ) → Rises lo s → Rises k us → Within s us → mem s (subsets us) ≡ true
unfolding subsets
mem-subsets lo k [] [] r q w = refl
mem-subsets lo k (x ∷ s) [] r q w = absurd (let bad = w x (member_head x s) in cc bad)
mem-subsets lo k [] (u ∷ us) r q w =
    rw
      (
        mem-append [] (map (λ (s : List ℕ). u ∷ s) (subsets us)) (subsets us),
        mem-subsets lo (u + 1) [] us tt q.1 (λ j m. absurd (cc m)),
      )
      (ground arith)
mem-subsets lo k (x ∷ s) (u ∷ us) r q w = elim (Bool-cases (x == u)) [
  | inl e ↦
      let same : x ≡ u = (==_iff x u).0 e in
      let tail : Within s us = (λ j m.
        let low = member-low (x + 1) j s r.1 m in
        member_rest j u us (omega arith) (w j (rw m (ground arith)))) in
      let there = mem-map_cons u s (subsets us) (mem-subsets (x + 1) (u + 1) s us r.1 q.1 tail) in
      rw (mem-append (x ∷ s) (map (λ (s : List ℕ). u ∷ s) (subsets us)) (subsets us), same, there)
        refl
  | inr ne ↦
      let first : member x us ≡ true = rw ne at (w x (member_head x s)) in
      let above = member-low (u + 1) x us q.1 first in
      let tail : Within (x ∷ s) us = (λ j m.
        let low = member-low x j (x ∷ s) (omega arith, r.1) m in
        member_rest j u us (omega arith) (w j m)) in
      let there = mem-subsets lo (u + 1) (x ∷ s) us r q.1 tail in
      rw (mem-append (x ∷ s) (map (λ (s : List ℕ). u ∷ s) (subsets us)) (subsets us), there)
        (ground arith)
]

-- How many of the sets are not seen.
pub missing : List (List ℕ) → List (List ℕ) → ℕ
missing [] seen = 0
missing (p ∷ ps) seen = (if mem p seen then 0 else 1) + missing ps seen

pub missing-nil : (ps : List (List ℕ)) → missing ps [] ≡ length ps
unfolding missing
missing-nil [] = refl
missing-nil (p ∷ ps) = omega (arith, missing-nil ps)

missing-le : (q : List ℕ) (ps seen : List (List ℕ)) → missing ps (q ∷ seen) ≤ missing ps seen
unfolding missing
missing-le q [] seen = omega arith
missing-le q (p ∷ ps) seen = ground (arith, missing-le q ps seen)

pub missing_less :
    (q : List ℕ) (ps seen : List (List ℕ))
    → mem q ps ≡ true
    → mem q seen ≡ false
    → missing ps (q ∷ seen) < missing ps seen
unfolding missing
missing_less q [] seen there new = absurd (cc there)
missing_less q (p ∷ ps) seen there new = elim (Bool-cases (list_eq q p)) [
  | inl same ↦
      let e = (list_eq_iff q p).0 same in
      let one : list_eq p q ≡ true = (list_eq_iff p q).1 (sym e) in
      let out : mem p seen ≡ false = rw e at new in
      rw (one, out) (omega (arith, missing-le q ps seen))
  | inr other ↦ let later = missing_less q ps seen (rw other at there) new in ground (arith, later)
]
