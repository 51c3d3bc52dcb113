-- ===== src/IdSets/SortedSet/Members.antt =====
-- The members of a SortedIntSet.
use whooshy.Common.{
  ℕ, ◌≤◌, ◌<◌, ◌≡◌, refl, sym, ◌∙◌, ap, true, false, ◌||◌, some, List, [], ◌∷◌, arith, ltb, ◌==◌,
  length, get_elem?, Bool-cases, inl, inr, ne→==, ==_iff,
}
use mathlib.Core.Path.{subst}
use whooshy.Common.Result.{Result, ok, err, index_error, overflow_error}
use whooshy.IdSets.BitSet.Iteration.{member}
use whooshy.IdSets.SortedSet.{
  Bisect, last_of, word, insert_at, sorted_contains, sorted_add, sorted_discard,
}
use whooshy.IdSets.SortedSet.Arrays.{
  Rises, Fits, BisectsLeft, place_at-Fits, member-Fits, below, below_none, position-below,
  member_low, member_high, below-last, below_full, member_last, member_again, member-below,
  member-place_at, place_at-Rises, position_cases,
}

-- What adding `i` to `xs` gives: a number of 32 bits is a member of the new sorted array; any other
-- overflows.
abbrev pub Adds : ℕ → List ℕ → Result (List ℕ) → Type 0
Adds i xs (ok ys) =
    (i < word) × Rises 0 ys × Fits ys × ((j : ℕ) → member j ys ≡ (j == i || member j xs))
Adds i xs (err e) = (word ≤ i) × (e ≡ overflow_error)

-- Placing a new number where the smaller ones end.
insert_at-Adds :
    (i k : ℕ) (xs : List ℕ)
    → Rises 0 xs
    → Fits xs
    → k ≡ below xs i
    → member i xs ≡ false
    → Adds i xs (insert_at xs k i)
unfolding insert_at
insert_at-Adds i k xs r f e out = elim (Bool-cases (ltb i word)) [
  | inl small ↦
      let h : i < word = ground arith in
      rw small (
        h,
        rw e (place_at-Rises 0 i xs r (omega arith) out),
        place_at-Fits k i xs f h,
        λ j. member-place_at j k i xs,
      )
  | inr large ↦ rw large (ground arith, refl)
]

-- Nothing changes where the number is a member.
kept-Adds : (i : ℕ) (xs : List ℕ) → Rises 0 xs → Fits xs → member i xs ≡ true → Adds i xs (ok xs)
kept-Adds i xs r f there = (member-Fits i xs f there, r, f, λ j. member_again i j xs there)

at_end : (i x : ℕ) (xs : List ℕ) → (i == x || i == last_of xs x) ≡ true → member i (x ∷ xs) ≡ true
at_end i x xs there = elim (Bool-cases (i == x)) [
  | inl e ↦ rw e refl
  | inr ne ↦
      let e : i ≡ last_of xs x = ground (arith, there, ne) in
      subst (λ k. member k (x ∷ xs) ≡ true) (sym e) (member_last x xs)
]

module _ {bisect_left : Bisect} (bisect_right : Bisect) (bl : BisectsLeft bisect_left) where
  bisect_left-below : (xs : List ℕ) (i : ℕ) → Rises 0 xs → bisect_left xs i ≡ below xs i
  bisect_left-below xs i r =
      position-below xs i (bisect_left xs i) (bl.within xs i r) (λ k. bl.lower xs i k r)
        (λ k. bl.upper xs i k r)

  -- The test `in` finds exactly the members of a sorted array, if bisect_left does what Python
  -- documents; it never reads outside the array.
  pub sorted_contains-member :
      (xs : List ℕ) (i : ℕ)
      → Rises 0 xs
      → sorted_contains bisect_left bisect_right xs i ≡ ok (member i xs)
  unfolding sorted_contains
  sorted_contains-member [] i r = refl
  sorted_contains-member (x ∷ xs) i r = elim (Bool-cases (ltb i x || ltb (last_of xs x) i)) [
    | inl out ↦ rw out (ap ok (sym (outside out)))
    | inr within ↦
        let pos = bisect_left-below (x ∷ xs) i r in
        elim (position_cases (x ∷ xs) (below (x ∷ xs) i) (rw pos at (bl.within (x ∷ xs) i r))) [
          | inl (at_end, g) ↦
              rw
                (
                  within,
                  pos,
                  member-below 0 i (x ∷ xs) r,
                  g,
                  (==_iff (below (x ∷ xs) i) (length (x ∷ xs))).1 at_end,
                )
                refl
          | inr (before, d, g) ↦
              rw
                (
                  within,
                  pos,
                  member-below 0 i (x ∷ xs) r,
                  g,
                  ne→== (below (x ∷ xs) i) (length (x ∷ xs)) (λ e. absurd (omega (arith, e))),
                )
                refl
        ]
  ]
    where
      outside : (ltb i x || ltb (last_of xs x) i) ≡ true → member i (x ∷ xs) ≡ false
      outside out = elim (Bool-cases (ltb i x)) [
        | inl first ↦ member_low x i (x ∷ xs) (omega arith, r.1) (ground arith)
        | inr rest ↦ member_high 0 i x xs r (ground (arith, rest, out))
      ]

  index-below :
      (x : ℕ) (xs : List ℕ) (i : ℕ)
      → Rises 0 (x ∷ xs)
      → ltb (last_of xs x) i ≡ false
      → (d : ℕ) × (get_elem? (x ∷ xs) (below (x ∷ xs) i) ≡ some d) × (member i (x ∷ xs) ≡ (d == i))
  index-below x xs i r h =
      let room = bl.within (x ∷ xs) i r in
      elim (position_cases (x ∷ xs) (below (x ∷ xs) i)
        (rw (bisect_left-below (x ∷ xs) i r) at room)) [
          | inl (at_end, g) ↦ absurd (ground (arith, h, below_full i x xs at_end))
          | inr (before, d, g) ↦ (d, g, member-below 0 i (x ∷ xs) r ∙ rw g refl)
        ]

  -- `add` to a sorted array of 32-bit numbers, if bisect_left does what Python documents: for a
  -- number of 32 bits it returns such an array again, with this number as a member and no other
  -- membership changed; for any other number it raises OverflowError.
  pub sorted_add-Rises :
      (i : ℕ) (xs : List ℕ)
      → Rises 0 xs
      → Fits xs
      → Adds i xs (sorted_add bisect_left bisect_right i xs)
  unfolding sorted_add
  sorted_add-Rises i [] r f = insert_at-Adds i 0 [] r f (below_none i [] tt) refl
  sorted_add-Rises i (x ∷ xs) r f = elim (Bool-cases (ltb (last_of xs x) i)) [
    | inl above ↦ rw above (
        insert_at-Adds i (length (x ∷ xs)) (x ∷ xs) r f (sym (below-last 0 i x xs r (ground arith)))
          (member_high 0 i x xs r (ground arith)))
    | inr inside ↦ elim (Bool-cases (i == x || i == last_of xs x)) [
      | inl there ↦ rw (inside, there) (kept-Adds i (x ∷ xs) r f (at_end i x xs there))
      | inr other ↦ elim (Bool-cases (ltb i x)) [
        | inl low ↦
            rw (inside, other, low)
              (insert_at-Adds i 0 (x ∷ xs) r f (below_none i (x ∷ xs) (ground arith, r.1))
                (member_low x i (x ∷ xs) (omega arith, r.1) (ground arith)))
        | inr high ↦
            let (d, g, found) = index-below x xs i r inside in
            rw (inside, other, high, bisect_left-below (x ∷ xs) i r, g)
              (elim (Bool-cases (d == i)) [
                | inl same ↦ rw same (kept-Adds i (x ∷ xs) r f (found ∙ same))
                | inr new ↦
                    rw new (insert_at-Adds i (below (x ∷ xs) i) (x ∷ xs) r f refl (found ∙ new))
              ])
      ]
    ]
  ]

  -- `discard` of a number above the whole of a sorted array raises IndexError, if bisect_left does
  -- what Python documents.
  pub sorted_discard_beyond :
      (i x : ℕ) (xs : List ℕ)
      → Rises 0 (x ∷ xs)
      → last_of xs x < i
      → sorted_discard bisect_left bisect_right i (x ∷ xs) ≡ err index_error
  unfolding sorted_discard
  sorted_discard_beyond i x xs r h =
      elim (position_cases (x ∷ xs) (length (x ∷ xs)) (omega arith)) [
        | inl (e, g) ↦ rw (bisect_left-below (x ∷ xs) i r, below-last 0 i x xs r h, g) refl
        | inr (l, d, g) ↦ absurd (omega arith)
      ]
