-- ===== src/Matching/Inverse/Documents.antt =====
-- Posting lists and missing documents.
use whooshy.Common.{
  ℕ, ◌+◌, ◌≤◌, ◌≡◌, ◌≢◌, refl, sym, ◌∙◌, Bool, true, none, List, [], ◌∷◌, arith, ltb, ◌==◌,
  Bool-cases, inl, inr, ◌⊎◌, le→ltb, ne→==,
}
use whooshy.Matching.Postings.{
  IsSorted, find, from, find-from, Above, find-Above, from-nil, from_head,
}

module _ {W : Type 0} where
  -- A document that an inverse matcher must not return.
  abbrev pub Hidden : (ℕ → Bool) → List (ℕ × W) → ℕ → Type 0
  Hidden missing ps j = (missing j ≡ true) ⊎ (find j ps ≢ none)

module _ {W : Type 0} where
  -- The list begins at document `n` or later.
  abbrev pub Starts : ℕ → List (ℕ × W) → Type 0
  Starts n [] = Unit
  Starts n (p ∷ ps) = n ≤ p.0

  -- None of the documents is missing.
  abbrev pub Clean : (ℕ → Bool) → List (ℕ × W) → Type 0
  Clean missing ps = (j : ℕ) → missing j ≡ true → find j ps ≡ none

  pub Starts-from : (n : ℕ) (ps : List (ℕ × W)) → Starts n (from n ps)
  unfolding from
  Starts-from n [] = tt
  Starts-from n (p ∷ ps) = elim (Bool-cases (ltb p.0 n)) [
    | inl below ↦ rw below (Starts-from n ps)
    | inr high ↦ rw high (ground arith)
  ]

  pub from-Starts : (n : ℕ) (ps : List (ℕ × W)) → IsSorted ps → Starts n ps → from n ps ≡ ps
  from-Starts n [] s h = from-nil n
  from-Starts n (p ∷ ps) s h = from_head n p ps s h

  pub Starts-Above : (n : ℕ) (ps : List (ℕ × W)) → Above n ps → Starts (n + 1) ps
  Starts-Above n [] a = tt
  Starts-Above n (p ∷ ps) a = omega arith

  pub find_head : (j : ℕ) (p : ℕ × W) (ps : List (ℕ × W)) → p.0 ≡ j → find j (p ∷ ps) ≢ none
  unfolding find
  find_head j p ps h e = ground (arith, h, e)

  pub find_other : (j : ℕ) (p : ℕ × W) (ps : List (ℕ × W)) → p.0 ≢ j → find j (p ∷ ps) ≡ find j ps
  unfolding find
  find_other j p ps h = rw (ne→== p.0 j h)

  pub find_here : (j n : ℕ) (ps : List (ℕ × W)) → n ≤ j → find j (from n ps) ≡ find j ps
  find_here j n ps h = rw (find-from j n ps, le→ltb j n h) refl

  pub Clean-from :
      (missing : ℕ → Bool) (n : ℕ) (ps : List (ℕ × W))
      → Clean missing ps
      → Clean missing (from n ps)
  Clean-from missing n ps clean j gone = rw (find-from j n ps, clean j gone) (ground arith)

  pub Clean-tail :
      (missing : ℕ → Bool) (p : ℕ × W) (ps : List (ℕ × W))
      → IsSorted (p ∷ ps)
      → Clean missing (p ∷ ps)
      → Clean missing ps
  Clean-tail missing p ps s clean j gone = elim (Bool-cases (p.0 == j)) [
    | inl eq ↦ find-Above j p.0 ps (ground arith) s.0
    | inr ne ↦ sym (find_other j p ps (ground arith)) ∙ clean j gone
  ]
