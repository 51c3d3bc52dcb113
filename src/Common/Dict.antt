-- ===== src/Common/Dict.antt =====
-- Dictionaries as association lists in the order of insertion, over keys with a Boolean equality.
use mathlib.Core.Path.{◌≡◌, refl}
use mathlib.Core.Logic.{◌↔◌}
use mathlib.Core.Bool.{Bool, true, false, ◌||◌}
use mathlib.Core.Option.{Option, none, some}
use mathlib.Core.List.{List, [], ◌∷◌}
use whooshy.Common.Tests.{if◌then◌else◌, Bool-cases}
use mathlib.Core.Logic.{inl, inr}

pub record Eq {ℓ} (A : Type ℓ) : Type ℓ where
  pub eq : A → A → Bool
  pub eq_iff : (a b : A) → (eq a b ≡ true) ↔ (a ≡ b)

module _ {ℓ} {K : Type ℓ} ⦃e : Eq K⦄ where
  abbrev pub mem : K → List K → Bool
  mem k [] = false
  mem k (x ∷ xs) = e.eq k x || mem k xs

  -- `add` of a set whose order is not looked at.
  abbrev pub include : K → List K → List K
  include k xs = if mem k xs then xs else k ∷ xs

  pub eq_self : (k : K) → e.eq k k ≡ true
  eq_self k = (e.eq_iff k k).1 refl

  pub mem-include : (j k : K) (xs : List K) → mem j (include k xs) ≡ (e.eq j k || mem j xs)
  mem-include j k xs = elim (Bool-cases (mem k xs)) [
    | inl there ↦ elim (Bool-cases (e.eq j k)) [
      | inl same ↦ let q = (e.eq_iff j k).0 same in rw (there, same, q) there
      | inr other ↦ rw (there, other) refl
    ]
    | inr new ↦ rw new refl
  ]

module _ {ℓ κ} {K : Type ℓ} {V : Type κ} ⦃e : Eq K⦄ where
  abbrev pub get : K → List (K × V) → Option V
  get k [] = none
  get k (p ∷ d) = if e.eq p.0 k then some p.1 else get k d

  abbrev pub put : K → V → List (K × V) → List (K × V)
  put k v [] = (k, v) ∷ []
  put k v (p ∷ d) = if e.eq p.0 k then (k, v) ∷ d else p ∷ put k v d

  abbrev pub keys : List (K × V) → List K
  keys [] = []
  keys (p ∷ d) = p.0 ∷ keys d

  pub get-put :
      (j k : K) (v : V) (d : List (K × V))
      → get j (put k v d) ≡ (if e.eq k j then some v else get j d)
  get-put j k v [] = refl
  get-put j k v (p ∷ d) = elim (Bool-cases (e.eq p.0 k)) [
    | inl same ↦
        let q = (e.eq_iff p.0 k).0 same in
        rw same (rw q (elim (Bool-cases (e.eq k j)) [ inl a ↦ rw a refl | inr b ↦ rw b refl ]))
    | inr other ↦ rw other (elim (Bool-cases (e.eq p.0 j)) [
      | inl here ↦
          let q = (e.eq_iff p.0 j).0 here in
          let apart : e.eq k j ≡ false = apart_from j k p.0 q other in rw (here, apart) refl
      | inr later ↦ rw later (get-put j k v d)
    ])
  ]
    where
      apart_from : (j k i : K) → i ≡ j → e.eq i k ≡ false → e.eq k j ≡ false
      apart_from j k i q o = elim (Bool-cases (e.eq k j)) [
        | inl same ↦ let r = (e.eq_iff k j).0 same in absurd (cc (eq_self k, o, q, r))
        | inr o' ↦ o'
      ]
