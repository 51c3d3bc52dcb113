-- ===== src/Matching/Postings/Select.antt =====
-- Choosing and rescoring postings of one list: what the intersection, the difference and the
-- filter of posting lists have in common.
use whooshy.Common.{
  Option-cases, ap, ◌∙◌, le→ltb, inl, inr, ℕ, ◌≤◌, ◌<◌, ◌≡◌, refl, Option, none, some, List, [],
  ◌∷◌, arith, length,
}
use whooshy.Matching.Postings.{
  Above, IsSorted, find, from, cons_if, find-from, from_head, find_before, find-Above,
}

module _ {W : Type 0} where
  -- Keep the posting of document `d` with score `w` under the score `f d w`, or drop it.
  unfoldable pub select : (ℕ → W → Option W) → List (ℕ × W) → List (ℕ × W)
  select f [] = []
  select f (p ∷ ps) = cons_if (f p.0 p.1) p.0 (select f ps)

  pub Above-select :
      (k : ℕ) (f : ℕ → W → Option W) (ps : List (ℕ × W)) → Above k ps → Above k (select f ps)
  unfolding select
  Above-select k f [] a = tt
  Above-select k f (p ∷ ps) a = ground (arith, Above-select k f ps a.1)

  pub select-IsSorted :
      (f : ℕ → W → Option W) (ps : List (ℕ × W)) → IsSorted ps → IsSorted (select f ps)
  unfolding select
  select-IsSorted f [] s = tt
  select-IsSorted f (p ∷ ps) s = ground (arith, select-IsSorted f ps s.1, Above-select p.0 f ps s.0)

  pub length-select : (f : ℕ → W → Option W) (ps : List (ℕ × W)) → length (select f ps) ≤ length ps
  unfolding select
  length-select f [] = omega arith
  length-select f (p ∷ ps) = ground (arith, length-select f ps)

  -- Two choices that agree from document `t` on agree on a list from `t` on.
  pub select-from_eq :
      (t : ℕ) (f g : ℕ → W → Option W) (ps : List (ℕ × W))
      → ((d : ℕ) (w : W) → t ≤ d → f d w ≡ g d w)
      → select f (from t ps) ≡ select g (from t ps)
  unfolding select from
  select-from_eq t f g [] same = refl
  select-from_eq t f g (p ∷ ps) same = ground (arith, same p.0 p.1, select-from_eq t f g ps same)

  pub from-select :
      (t : ℕ) (f : ℕ → W → Option W) (ps : List (ℕ × W))
      → from t (select f ps) ≡ select f (from t ps)
  unfolding select from
  from-select t f [] = refl
  from-select t f (p ∷ ps) = ground (arith, from-select t f ps)

  -- Dropping what the choice drops anyway changes nothing.
  pub select-from_dropped :
      (t : ℕ) (f : ℕ → W → Option W) (ps : List (ℕ × W))
      → ((d : ℕ) (w : W) → d < t → f d w ≡ none)
      → select f (from t ps) ≡ select f ps
  unfolding select from
  select-from_dropped t f [] dropped = refl
  select-from_dropped t f (p ∷ ps) dropped =
      ground (arith, dropped p.0 p.1, select-from_dropped t f ps dropped)

  pub nil-select : (f : ℕ → W → Option W) → select f [] ≡ []
  unfolding select
  nil-select f = refl

  pub select_drop :
      (f : ℕ → W → Option W) (p : ℕ × W) (ps : List (ℕ × W))
      → f p.0 p.1 ≡ none
      → select f (p ∷ ps) ≡ select f ps
  unfolding select
  select_drop f p ps e = rw e refl

  pub select_keep :
      (f : ℕ → W → Option W) (p : ℕ × W) (ps : List (ℕ × W)) {w : W}
      → f p.0 p.1 ≡ some w
      → select f (p ∷ ps) ≡ (p.0, w) ∷ select f ps
  unfolding select
  select_keep f p ps e = rw e refl

  pub find-select :
      (d : ℕ) (f : ℕ → W → Option W) (ps : List (ℕ × W))
      → IsSorted ps
      → find d (select f ps) ≡ (elim (find d ps) [ none ↦ none | some w ↦ f d w ])
  unfolding find select
  find-select d f [] s = refl
  find-select d f (p ∷ ps) s = ground (
    arith,
    find-select d f ps s.1,
    find-Above d p.0 ps,
    find-Above d p.0 (select f ps),
    Above-select p.0 f ps s.0,
  )

-- The scores of a document that two lists have, added.
module _ {W : Type 0} (add : W → W → W) where
  abbrev pub matched : List (ℕ × W) → ℕ → W → Option W
  matched ys d w = elim (find d ys) [ none ↦ none | some v ↦ some (add w v) ]

  abbrev pub inter : List (ℕ × W) → List (ℕ × W) → List (ℕ × W)
  inter xs ys = select (matched ys) xs

  pub inter-nil : (xs : List (ℕ × W)) → inter xs [] ≡ []
  unfolding select find
  inter-nil [] = refl
  inter-nil (x ∷ xs) = inter-nil xs

  pub nil-inter : (ys : List (ℕ × W)) → inter [] ys ≡ []
  unfolding select
  nil-inter ys = refl

  pub inter_same :
      (x : ℕ × W) (xs : List (ℕ × W)) (y : ℕ × W) (ys : List (ℕ × W))
      → x.0 ≡ y.0
      → inter (x ∷ xs) (y ∷ ys) ≡ (x.0, add x.1 y.1) ∷ inter xs (y ∷ ys)
  unfolding select find
  inter_same x xs y ys e = ground arith

  -- What the left list has before the first document of the right one does not matter.
  pub inter-from_left :
      (xs : List (ℕ × W)) (y : ℕ × W) (ys : List (ℕ × W))
      → IsSorted (y ∷ ys)
      → inter (from y.0 xs) (y ∷ ys) ≡ inter xs (y ∷ ys)
  inter-from_left xs y ys s =
      select-from_dropped y.0 (matched (y ∷ ys)) xs (λ d w h. rw (find_before d y ys s h, matched))

  pub inter-from_right :
      (x : ℕ × W) (xs ys : List (ℕ × W))
      → IsSorted (x ∷ xs)
      → inter (x ∷ xs) (from x.0 ys) ≡ inter (x ∷ xs) ys
  inter-from_right x xs ys s = rw (← from_head x.0 x xs s (omega arith)) (
      select-from_eq x.0 (matched (from x.0 ys)) (matched ys) (x ∷ xs)
        (λ d w h. rw (find-from d x.0 ys, matched, le→ltb d x.0 h)))

  pub from-inter :
      (t : ℕ) (xs ys : List (ℕ × W)) → from t (inter xs ys) ≡ inter (from t xs) (from t ys)
  from-inter t xs ys =
      from-select t (matched ys) xs
      ∙ select-from_eq t (matched ys) (matched (from t ys)) xs
          (λ d w h. rw (matched, find-from d t ys, le→ltb d t h))

  -- A document is in the intersection exactly if both lists have it.
  pub find-inter :
      (d : ℕ) (xs ys : List (ℕ × W))
      → IsSorted xs
      → find d (inter xs ys) ≡ (elim (find d xs) [ none ↦ none | some w ↦ matched ys d w ])
  find-inter d xs ys s = find-select d (matched ys) xs s

-- The postings of documents that the other list lacks.
module _ {W : Type 0} where
  abbrev pub unmatched : List (ℕ × W) → ℕ → W → Option W
  unmatched ys d w = elim (find d ys) [ none ↦ some w | some v ↦ none ]

  abbrev pub minus : List (ℕ × W) → List (ℕ × W) → List (ℕ × W)
  minus xs ys = select (unmatched ys) xs

  pub nil-minus : (ys : List (ℕ × W)) → minus [] ys ≡ []
  unfolding select
  nil-minus ys = refl

  pub minus_kept :
      (x : ℕ × W) (xs ys : List (ℕ × W)) → find x.0 ys ≡ none → minus (x ∷ xs) ys ≡ x ∷ minus xs ys
  unfolding select
  minus_kept x xs ys e = ground (arith, e)

  pub minus_same :
      (x : ℕ × W) (xs : List (ℕ × W)) (y : ℕ × W) (ys : List (ℕ × W))
      → x.0 ≡ y.0
      → minus (x ∷ xs) (y ∷ ys) ≡ minus xs (y ∷ ys)
  unfolding select find
  minus_same x xs y ys e = ground arith

  pub from-minus :
      (t : ℕ) (xs ys : List (ℕ × W)) → from t (minus xs ys) ≡ minus (from t xs) (from t ys)
  from-minus t xs ys =
      from-select t (unmatched ys) xs
      ∙ select-from_eq t (unmatched ys) (unmatched (from t ys)) xs
          (λ d w h. rw (unmatched, find-from d t ys, le→ltb d t h))

  pub minus-from_right :
      (t : ℕ) (x : ℕ × W) (xs ys : List (ℕ × W))
      → IsSorted (x ∷ xs)
      → t ≤ x.0
      → minus (x ∷ xs) (from t ys) ≡ minus (x ∷ xs) ys
  minus-from_right t x xs ys s h = rw (← from_head t x xs s h) (
      select-from_eq t (unmatched (from t ys)) (unmatched ys) (x ∷ xs)
        (λ d w k. rw (unmatched, find-from d t ys, le→ltb d t k)))

  -- A document is in the difference exactly if the left list has it and the right one does not.
  pub find-minus :
      (d : ℕ) (xs ys : List (ℕ × W))
      → IsSorted xs
      → find d (minus xs ys) ≡ (elim (find d xs) [ none ↦ none | some w ↦ unmatched ys d w ])
  find-minus d xs ys s = find-select d (unmatched ys) xs s

-- The postings of the left list, with the scores of the right list added where it has one.
module _ {W : Type 0} (add : W → W → W) where
  abbrev pub boosted : List (ℕ × W) → ℕ → W → Option W
  boosted ys d w = elim (find d ys) [ none ↦ some w | some v ↦ some (add w v) ]

  abbrev pub maybe : List (ℕ × W) → List (ℕ × W) → List (ℕ × W)
  maybe xs ys = select (boosted ys) xs

  pub nil-maybe : (ys : List (ℕ × W)) → maybe [] ys ≡ []
  unfolding select
  nil-maybe ys = refl

  pub maybe_nil : (xs : List (ℕ × W)) → maybe xs [] ≡ xs
  unfolding select find
  maybe_nil [] = refl
  maybe_nil (x ∷ xs) = ap (λ l. x ∷ l) (maybe_nil xs)

  pub maybe_same :
      (x : ℕ × W) (xs : List (ℕ × W)) (y : ℕ × W) (ys : List (ℕ × W))
      → x.0 ≡ y.0
      → maybe (x ∷ xs) (y ∷ ys) ≡ (x.0, add x.1 y.1) ∷ maybe xs (y ∷ ys)
  unfolding select find
  maybe_same x xs y ys e = ground arith

  pub maybe_alone :
      (x : ℕ × W) (xs ys : List (ℕ × W)) → find x.0 ys ≡ none → maybe (x ∷ xs) ys ≡ x ∷ maybe xs ys
  unfolding select
  maybe_alone x xs ys e = ground (arith, e)

  pub from-maybe :
      (t : ℕ) (xs ys : List (ℕ × W)) → from t (maybe xs ys) ≡ maybe (from t xs) (from t ys)
  from-maybe t xs ys =
      from-select t (boosted ys) xs
      ∙ select-from_eq t (boosted ys) (boosted (from t ys)) xs
          (λ d w h. rw (boosted, find-from d t ys, le→ltb d t h))

  pub maybe_tail :
      (x : ℕ × W) (xs ys : List (ℕ × W)) → (w : W) × (maybe (x ∷ xs) ys ≡ (x.0, w) ∷ maybe xs ys)
  unfolding select
  maybe_tail x xs ys = elim (Option-cases (find x.0 ys)) [
    | inl e ↦ (x.1, rw (boosted, e) refl)
    | inr (v, e) ↦ (add x.1 v, rw (boosted, e) refl)
  ]

  pub find-maybe :
      (d : ℕ) (xs ys : List (ℕ × W))
      → IsSorted xs
      → find d (maybe xs ys) ≡ (elim (find d xs) [ none ↦ none | some w ↦ boosted ys d w ])
  find-maybe d xs ys s = find-select d (boosted ys) xs s

  pub maybe-from_right :
      (t : ℕ) (x : ℕ × W) (xs ys : List (ℕ × W))
      → IsSorted (x ∷ xs)
      → t ≤ x.0
      → maybe (x ∷ xs) (from t ys) ≡ maybe (x ∷ xs) ys
  maybe-from_right t x xs ys s h = rw (← from_head t x xs s h) (
      select-from_eq t (boosted (from t ys)) (boosted ys) (x ∷ xs)
        (λ d w k. rw (boosted, find-from d t ys, le→ltb d t k)))
