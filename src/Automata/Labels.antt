-- ===== src/Automata/Labels.antt =====
-- fsa.py: the labels of transitions, with the two marker constants.
use whooshy.Common.{ℕ, ◌≡◌, Bool, true, false, ◌==◌, ==_iff, ◌↔◌, arith, List, [], ◌∷◌, ◌&&◌}
use whooshy.Common.Dict.{Eq}

pub data Label : Type 0 where
  epsilon any : Label
  char : ℕ → Label

abbrev pub label_eq : Label → Label → Bool
label_eq epsilon epsilon = true
label_eq any any = true
label_eq (char a) (char b) = a == b
label_eq _ _ = false

pub label_eq_iff : (a b : Label) → (label_eq a b ≡ true) ↔ (a ≡ b)
label_eq_iff epsilon epsilon = ground arith
label_eq_iff epsilon any = ground arith
label_eq_iff epsilon (char b) = ground arith
label_eq_iff any epsilon = ground arith
label_eq_iff any any = ground arith
label_eq_iff any (char b) = ground arith
label_eq_iff (char a) epsilon = ground arith
label_eq_iff (char a) any = ground arith
label_eq_iff (char a) (char b) = ground arith

instance abbrev pub label_keys : Eq Label
label_keys = record { eq = label_eq; eq_iff = label_eq_iff }

instance abbrev pub number_keys : Eq ℕ
number_keys = record { eq = ◌==◌; eq_iff = ==_iff }

-- The states of a deterministic automaton that is made of another one are sets of states.
abbrev pub list_eq : List ℕ → List ℕ → Bool
list_eq [] [] = true
list_eq (x ∷ xs) (y ∷ ys) = x == y && list_eq xs ys
list_eq _ _ = false

pub list_eq_iff : (a b : List ℕ) → (list_eq a b ≡ true) ↔ (a ≡ b)
list_eq_iff [] [] = ground arith
list_eq_iff [] (y ∷ ys) = ground arith
list_eq_iff (x ∷ xs) [] = ground arith
list_eq_iff (x ∷ xs) (y ∷ ys) = ground (arith, list_eq_iff xs ys)

instance abbrev pub set_keys : Eq (List ℕ)
set_keys = record { eq = list_eq; eq_iff = list_eq_iff }
