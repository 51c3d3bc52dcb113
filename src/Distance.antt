-- ===== src/Distance.antt =====
-- src/whoosh/support/levenshtein.py: edit distances by dynamic programming. A row holds the distances
-- between what is read of the first string and the beginnings of the second one; the column of the
-- empty beginning, which the code keeps at the end of the list, is a field of its own.
pub mod Reference
pub mod Runs
use whooshy.Common.{
  ℕ, zero, suc, ◌+◌, Bool, true, false, not, ◌&&◌, Option, none, some, List, [], ◌∷◌, if◌then◌else◌,
  ◌==◌, ltb, min,
}

pub record Row : Type 0 where
  pub left : ℕ
  pub cells : List ℕ

abbrev pub differs : ℕ → ℕ → ℕ
differs c d = if c == d then 0 else 1

-- `range(k, ...)`, one number for each character.
pub count_from : ℕ → List ℕ → List ℕ
count_from k [] = []
count_from k (d ∷ ds) = k ∷ count_from (k + 1) ds

-- The inner loop: `diag` is oneago[y - 1], `prev` is thisrow[y - 1].
pub next_cells : ℕ → ℕ → ℕ → List ℕ → List ℕ → List ℕ
next_cells c diag prev (old ∷ olds) (d ∷ ds) =
    let cell = min (old + 1) (min (prev + 1) (diag + differs c d)) in
    cell ∷ next_cells c old cell olds ds
next_cells c diag prev _ _ = []

pub next_row : List ℕ → ℕ → Row → Row
unfolding next_cells
next_row seq2 c row = record {
  left = row.left + 1;
  cells = next_cells c row.left (row.left + 1) row.cells seq2;
}

pub min_cells : ℕ → List ℕ → ℕ
min_cells m [] = m
min_cells m (cell ∷ cells) = min_cells (min m cell) cells

-- `limit and x > limit and min(thisrow) > limit`, for the row after the character at x.
pub over : Option ℕ → ℕ → Row → Bool
unfolding min_cells
over none x row = false
over (some zero) x row = false
over (some (suc l)) x row = ltb (suc l) x && ltb (suc l) (min_cells row.left row.cells)

abbrev pub or_zero : Option ℕ → ℕ
or_zero none = 0
or_zero (some l) = l

-- `thisrow[len(seq2) - 1]`
pub last_cell : ℕ → List ℕ → ℕ
last_cell left [] = left
last_cell left (cell ∷ cells) = last_cell cell cells

pub row_loop : List ℕ → Option ℕ → List ℕ → Row → ℕ
unfolding next_row over last_cell
row_loop seq2 limit [] row = last_cell row.left row.cells
row_loop seq2 limit (c ∷ seq1) row =
    let row' = next_row seq2 c row in
    let rest = row_loop seq2 limit seq1 row' in
    if over limit row.left row' then or_zero limit + 1 else rest

pub levenshtein : List ℕ → List ℕ → Option ℕ → ℕ
unfolding row_loop count_from
levenshtein seq1 seq2 limit =
    row_loop seq2 limit seq1 (record { left = 0; cells = count_from 1 seq2 })

-- With transpositions. `before` and `last` are seq1[x - 1] and seq2[y - 1], if there are such; `twos`
-- is the row of twoago from the column y - 2 on.
abbrev pub swaps : Option ℕ → ℕ → Option ℕ → ℕ → Bool
swaps (some b) c (some l) d = c == l && (b == d && not (c == d))
swaps _ c _ d = false

abbrev pub with_swap : Bool → List ℕ → ℕ → ℕ
with_swap true (two ∷ twos) cell = min cell (two + 1)
with_swap _ _ cell = cell

-- From the second character on, a column of twoago is passed.
abbrev pub pass_two : Option ℕ → List ℕ → List ℕ
pass_two none twos = twos
pass_two (some l) [] = []
pass_two (some l) (two ∷ twos) = twos

pub damerau_cells : Option ℕ → Option ℕ → List ℕ → ℕ → ℕ → ℕ → List ℕ → List ℕ → List ℕ
damerau_cells before last twos c diag prev (old ∷ olds) (d ∷ ds) =
    let plain = min (old + 1) (min (prev + 1) (diag + differs c d)) in
    let cell = with_swap (swaps before c last d) twos plain in
    cell ∷ damerau_cells before (some d) (pass_two last twos) c old cell olds ds
damerau_cells before last twos c diag prev _ _ = []

pub damerau_loop : List ℕ → Option ℕ → List ℕ → Option ℕ → Row → Row → ℕ
unfolding damerau_cells over last_cell
damerau_loop seq2 limit [] before twoago row = last_cell row.left row.cells
damerau_loop seq2 limit (c ∷ seq1) before twoago row =
    let row' : Row = (record {
      left = row.left + 1;
      cells =
          damerau_cells before none (twoago.left ∷ twoago.cells) c row.left (row.left + 1) row.cells
            seq2;
    }) in
    let rest = damerau_loop seq2 limit seq1 (some c) row row' in
    if over limit row.left row' then or_zero limit + 1 else rest

pub damerau_levenshtein : List ℕ → List ℕ → Option ℕ → ℕ
unfolding damerau_loop count_from
damerau_levenshtein seq1 seq2 limit =
    let row : Row = record { left = 0; cells = count_from 1 seq2 } in
    damerau_loop seq2 limit seq1 none row row
