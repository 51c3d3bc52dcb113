-- ===== src/IdSets/BitSet/Runs.antt =====
-- The theorems on BitSets that have conditions, or range over sets, at concrete byte arrays.
use whooshy.Common.{ℕ, ◌≡◌, not, ◌&&◌, ◌||◌, Option, List, [], ◌∷◌, arith, ltb, ◌==◌, length}
use whooshy.Common.Result.{ok}
use whooshy.IdSets.BitSet.{
  contains, add, discard, union, intersection, difference, after, before, iter, invert_update,
}
use whooshy.IdSets.BitSet.Members.{contains-add, contains-discard}
use whooshy.IdSets.BitSet.Logic.{contains-logic}
use whooshy.IdSets.BitSet.Neighbours.{IsFirst, IsLast, after-IsFirst, before-IsLast}
use whooshy.IdSets.BitSet.Iteration.{Between, member, iter-members}
use whooshy.IdSets.BitSet.Invert.{contains-invert_update}

-- The members 0, 2 and 9.
abbrev bits : List ℕ
bits = 5 ∷ 2 ∷ []

-- The members 2 and 16.
abbrev others : List ℕ
others = 4 ∷ 0 ∷ 1 ∷ []

contains-add_example : contains (add 20 bits) 9 ≡ (20 == 9 || contains bits 9)
contains-add_example = contains-add 20 9 bits

contains-discard_example :
    (bits' : List ℕ) × (discard 9 bits ≡ ok bits')
    × (length bits' ≡ 2)
    × ((j : ℕ) → contains bits' j ≡ (not (9 == j) && contains bits j))
contains-discard_example = contains-discard 9 bits (omega arith)

contains-logic_example :
    (contains (union bits others) 2 ≡ (contains bits 2 || contains others 2))
    × (contains (intersection bits others) 2 ≡ (contains bits 2 && contains others 2))
    × (contains (difference bits others) 2 ≡ (contains bits 2 && not (contains others 2)))
contains-logic_example = contains-logic bits others 2

after-IsFirst_example : (o : Option ℕ) × (after bits 2 ≡ ok o) × IsFirst bits 3 o
after-IsFirst_example = after-IsFirst bits 2

before-IsLast_example : (o : Option ℕ) × (before bits 9 ≡ ok o) × IsLast bits 9 o
before-IsLast_example = before-IsLast bits 9

iter-members_example : Between 0 16 (iter bits) × ((j : ℕ) → member j (iter bits) ≡ contains bits j)
iter-members_example = iter-members bits

contains-invert_update_example :
    (bits' : List ℕ) × (invert_update 12 bits ≡ ok bits')
    × ((j : ℕ) → contains bits' j ≡ (ltb j 12 && (ltb j 16 && not (contains bits j))))
contains-invert_update_example = contains-invert_update 12 5 (2 ∷ []) (omega arith)
