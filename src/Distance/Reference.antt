-- ===== src/Distance/Reference.antt =====
-- The edit distance by recursion, and the rows of levenshtein.
use whooshy.Common.{
  ℕ, zero, suc, ◌+◌, ◌≤◌, ◌<◌, ◌≡◌, refl, ap, ap₂, true, Option, none, some, List, [], ◌∷◌, length,
  arith, min, Bool-cases, inl, inr, ◌⊎◌,
}
use whooshy.Distance.{
  Row, differs, count_from, next_cells, next_row, min_cells, over, or_zero, last_cell, row_loop,
  levenshtein,
}

-- The distance of two strings that are read from their ends: a character is left out of the first
-- string or of the second one, or the last characters are replaced.
pub edit_distance : List ℕ → List ℕ → ℕ
edit_distance [] ys = length ys
edit_distance (x ∷ xs) [] = suc (length xs)
edit_distance (x ∷ xs) (y ∷ ys) =
    min (edit_distance xs (y ∷ ys) + 1)
      (min (edit_distance (x ∷ xs) ys + 1) (edit_distance xs ys + differs x y))

abbrev pub onto : List ℕ → List ℕ → List ℕ
onto [] q = q
onto (x ∷ xs) q = onto xs (x ∷ q)

-- The distances between p and the beginnings of q followed by ds, but q itself.
columns : List ℕ → List ℕ → List ℕ → List ℕ
columns p q [] = []
columns p q (d ∷ ds) = edit_distance p (d ∷ q) ∷ columns p (d ∷ q) ds

distance-nil : (p : List ℕ) → edit_distance p [] ≡ length p
unfolding edit_distance
distance-nil [] = refl
distance-nil (x ∷ xs) = refl

next_cells-columns :
    (c : ℕ) (p q ds : List ℕ)
    → next_cells c (edit_distance p q) (edit_distance (c ∷ p) q) (columns p q ds) ds
      ≡ columns (c ∷ p) q ds
unfolding next_cells columns edit_distance
next_cells-columns c p q [] = refl
next_cells-columns c p q (d ∷ ds) =
    ap (λ cells. edit_distance (c ∷ p) (d ∷ q) ∷ cells) (next_cells-columns c p (d ∷ q) ds)

count_from-columns :
    (k : ℕ) (q ds : List ℕ) → k ≡ suc (length q) → count_from k ds ≡ columns [] q ds
unfolding count_from columns edit_distance
count_from-columns k q [] h = refl
count_from-columns k q (d ∷ ds) h =
    ap₂ (λ cell cells. cell ∷ cells) h (count_from-columns (k + 1) (d ∷ q) ds (omega (arith, h)))

last_cell-columns :
    (p q ds : List ℕ) → last_cell (edit_distance p q) (columns p q ds) ≡ edit_distance p (onto ds q)
unfolding last_cell columns
last_cell-columns p q [] = refl
last_cell-columns p q (d ∷ ds) = last_cell-columns p (d ∷ q) ds

-- The row after the characters of p, the last one first.
row_of : List ℕ → List ℕ → Row
row_of p seq2 = record { left = length p; cells = columns p [] seq2 }

next_cells-row :
    (c : ℕ) (p seq2 : List ℕ)
    → next_cells c (length p) (length p + 1) (columns p [] seq2) seq2 ≡ columns (c ∷ p) [] seq2
next_cells-row c p seq2 =
    let more : length p + 1 ≡ suc (length p) = omega arith in
    let cells = next_cells-columns c p [] seq2 in
    let cells' = rw (distance-nil p, distance-nil (c ∷ p)) at cells in rw more cells'

next_row-row_of : (c : ℕ) (p seq2 : List ℕ) → next_row seq2 c (row_of p seq2) ≡ row_of (c ∷ p) seq2
unfolding next_row row_of
next_row-row_of c p seq2 =
    let more : length p + 1 ≡ suc (length p) = omega arith in
    ap₂ (λ left cells. record { left = left; cells = cells }) more (next_cells-row c p seq2)

-- No entry of the row is below m.
AtLeast : ℕ → List ℕ → Type 0
AtLeast m [] = Unit
AtLeast m (cell ∷ cells) = (m ≤ cell) × AtLeast m cells

next_cells-AtLeast :
    (m c diag prev : ℕ) (olds ds : List ℕ)
    → m ≤ diag
    → m ≤ prev
    → AtLeast m olds
    → AtLeast m (next_cells c diag prev olds ds)
unfolding next_cells AtLeast
next_cells-AtLeast m c diag prev [] ds hd hp h = tt
next_cells-AtLeast m c diag prev (old ∷ olds) [] hd hp h = tt
next_cells-AtLeast m c diag prev (old ∷ olds) (d ∷ ds) hd hp h =
    let low : m ≤ min (old + 1) (min (prev + 1) (diag + differs c d)) = ground (arith, h.0) in
    (low, next_cells-AtLeast m c old _ olds ds h.0 low h.1)

last_cell-AtLeast :
    (m left : ℕ) (cells : List ℕ) → m ≤ left → AtLeast m cells → m ≤ last_cell left cells
unfolding last_cell AtLeast
last_cell-AtLeast m left [] h hs = h
last_cell-AtLeast m left (cell ∷ cells) h hs = last_cell-AtLeast m cell cells hs.0 hs.1

min_cells-AtLeast :
    (m cells_min : ℕ) (cells : List ℕ)
    → m ≤ min_cells cells_min cells
    → (m ≤ cells_min) × AtLeast m cells
unfolding min_cells AtLeast
min_cells-AtLeast m s [] h = (h, tt)
min_cells-AtLeast m s (cell ∷ cells) h =
    let (a, b) = min_cells-AtLeast m (min s cell) cells h in
    (ground (arith, a), (ground (arith, a), b))

-- Every row after this one, and the result, is at least m.
row_loop-AtLeast :
    (m : ℕ) (p seq2 : List ℕ) (seq1 : List ℕ)
    → m ≤ length p
    → AtLeast m (columns p [] seq2)
    → m ≤ edit_distance (onto seq1 p) (onto seq2 [])
row_loop-AtLeast m p seq2 [] h hs =
    let last = last_cell-AtLeast m (length p) (columns p [] seq2) h hs in
    let same = last_cell-columns p [] seq2 in
    let same' = rw (distance-nil p) at same in rw (← same') last
row_loop-AtLeast m p seq2 (c ∷ seq1) h hs =
    let next =
      next_cells-AtLeast m c (length p) (length p + 1) (columns p [] seq2) seq2 h (omega (arith, h))
        hs in
    row_loop-AtLeast m (c ∷ p) seq2 seq1 (omega (arith, h)) (rw (next_cells-row c p seq2) at next)

over_low :
    (limit : Option ℕ) (x : ℕ) (row : Row)
    → over limit x row ≡ true
    → (or_zero limit + 1 ≤ row.left) × AtLeast (or_zero limit + 1) row.cells
unfolding over
over_low none x row h = absurd (cc h)
over_low (some zero) x row h = absurd (cc h)
over_low (some (suc l)) x row h =
    min_cells-AtLeast (suc l + 1) row.left row.cells (ground (arith, h))

row_loop-edit_distance :
    (limit : Option ℕ) (p seq1 seq2 : List ℕ)
    → (row_loop seq2 limit seq1 (row_of p seq2) ≡ edit_distance (onto seq1 p) (onto seq2 []))
      ⊎ ((row_loop seq2 limit seq1 (row_of p seq2) ≡ or_zero limit + 1)
          × (or_zero limit < edit_distance (onto seq1 p) (onto seq2 [])))
unfolding row_loop
row_loop-edit_distance limit p [] seq2 = inl (
    let same = last_cell-columns p [] seq2 in
    let same' = rw (distance-nil p) at same in unfold row_of in same')
row_loop-edit_distance limit p (c ∷ seq1) seq2 =
    rw (next_row-row_of c p seq2)
      (elim (Bool-cases (over limit (row_of p seq2).left (row_of (c ∷ p) seq2))) [
        | inl stop ↦
            let (a, b) = over_low limit (length p) (row_of (c ∷ p) seq2) (unfold row_of in stop) in
            let far =
              row_loop-AtLeast (or_zero limit + 1) (c ∷ p) seq2 seq1 (unfold row_of in a)
                (unfold row_of in b) in
            rw stop (inr (refl, omega (arith, far)))
        | inr go ↦ rw go (row_loop-edit_distance limit (c ∷ p) seq1 seq2)
      ])

row_loop-none :
    (p seq1 seq2 : List ℕ)
    → row_loop seq2 none seq1 (row_of p seq2) ≡ edit_distance (onto seq1 p) (onto seq2 [])
unfolding row_loop over
row_loop-none p [] seq2 =
    let same = last_cell-columns p [] seq2 in
    let same' = rw (distance-nil p) at same in unfold row_of in same'
row_loop-none p (c ∷ seq1) seq2 = rw (next_row-row_of c p seq2) (row_loop-none (c ∷ p) seq1 seq2)

first_row : (seq2 : List ℕ) → record { left = 0; cells = count_from 1 seq2 } ≡ row_of [] seq2
unfolding row_of
first_row seq2 =
    ap (λ cells. record { left = 0; cells = cells }) (count_from-columns 1 [] seq2 refl)

-- Without a limit levenshtein returns the edit distance of the two strings, read from their ends; with
-- a limit it returns the distance, or one more than the limit where the distance is above the limit.
pub levenshtein-edit_distance :
    (seq1 seq2 : List ℕ) (limit : Option ℕ)
    → (levenshtein seq1 seq2 none ≡ edit_distance (onto seq1 []) (onto seq2 []))
      × ((levenshtein seq1 seq2 limit ≡ edit_distance (onto seq1 []) (onto seq2 []))
          ⊎ ((levenshtein seq1 seq2 limit ≡ or_zero limit + 1)
              × (or_zero limit < edit_distance (onto seq1 []) (onto seq2 []))))
unfolding levenshtein
levenshtein-edit_distance seq1 seq2 limit =
    let start = first_row seq2 in
    (rw start (row_loop-none [] seq1 seq2), rw start (row_loop-edit_distance limit [] seq1 seq2))
