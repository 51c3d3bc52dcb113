-- ===== src/Matching/Leaf/Listed.antt =====
-- A ListMatcher does what the interface promises.
use whooshy.Common.{
  ℕ, zero, suc, ◌≤◌, ◌<◌, ◌≡◌, refl, sym, ◌∙◌, ap, Bool, Option, none, some, List, [], ◌∷◌, arith,
  length, ltb, get_elem?, get_or, drop, ◌⊎◌, inl, inr, Bool-cases, le→ltb, lt→ltb,
}
use whooshy.Common.Result.{ok, err, index_error}
use whooshy.Matching.Postings.{nonempty, from, from_below, from_head}
use whooshy.Matching.Interface.{Moves, Implements}
use whooshy.Matching.Leaf.{
  ListMatcher, IsListed, list_is_active, list_id, list_next, list_skip_loop, list_skip_to,
  list_weight, list_score, one_of, list_matcher, list_spec, remaining, entries, rate, listed, Fits,
}

get_elem?_beyond : (xs : List ℕ) (i : ℕ) → length xs ≤ i → get_elem? xs i ≡ none
get_elem?_beyond [] i h = refl
get_elem?_beyond (x ∷ xs) zero h = absurd (omega arith)
get_elem?_beyond (x ∷ xs) (suc i) h = get_elem?_beyond xs i (omega arith)

-- At a position the list has ended, or has an element there and goes on behind it.
position_cases :
    (xs : List ℕ) (i : ℕ)
    → ((drop i xs ≡ []) × (length xs ≤ i))
      ⊎ ((x : ℕ) × (get_elem? xs i ≡ some x) × (drop i xs ≡ x ∷ drop (suc i) xs) × (i < length xs))
position_cases [] zero = inl (refl, omega arith)
position_cases [] (suc i) = inl (refl, omega arith)
position_cases (x ∷ xs) zero = inr (x, refl, refl, omega arith)
position_cases (x ∷ xs) (suc i) = elim (position_cases xs i) [
  | inl (e, h) ↦ inl (e, omega arith)
  | inr (y, e, f, h) ↦ inr (y, e, f, omega arith)
]

length-drop-le : (xs : List ℕ) (i : ℕ) → length (drop i xs) ≤ length xs
length-drop-le xs zero = omega arith
length-drop-le [] (suc i) = omega arith
length-drop-le (x ∷ xs) (suc i) = omega (arith, length-drop-le xs i)

get_elem?-get_or :
    {W : Type 0} (ws : List W) (i : ℕ) (d : W)
    → i < length ws
    → get_elem? ws i ≡ some (get_or ws i d)
get_elem?-get_or [] i d h = absurd (omega arith)
get_elem?-get_or (w ∷ ws) zero d h = refl
get_elem?-get_or (w ∷ ws) (suc i) d h = get_elem?-get_or ws i d (omega arith)

module _ {W : Type 0} (one : W) (truthy : W → Bool) where
  length-entries :
      (r : ℕ → W) (j : ℕ) (ds : List ℕ) → length (entries one truthy r j ds) ≡ length ds
  unfolding entries
  length-entries r j [] = refl
  length-entries r j (d ∷ ds) = ap suc (length-entries r (suc j) ds)

  length-remaining : (s : ListMatcher W) → length (remaining one truthy s) ≤ length s.ids
  length-remaining s =
      omega
        (arith, length-entries (rate one truthy s) s.i (drop s.i s.ids), length-drop-le s.ids s.i)

  remaining_cases :
      (s : ListMatcher W)
      → ((remaining one truthy s ≡ []) × (length s.ids ≤ s.i))
        ⊎ ((d : ℕ) × (get_elem? s.ids s.i ≡ some d)
            × (remaining one truthy s
                ≡ (d, rate one truthy s s.i) ∷ remaining one truthy (list_next one truthy s))
            × (s.i < length s.ids))
  unfolding entries list_next
  remaining_cases s = elim (position_cases s.ids s.i) [
    | inl (e, h) ↦ inl (rw e refl, h)
    | inr (d, e, f, h) ↦ inr (d, e, rw f refl, h)
  ]

  -- `id` of an exhausted matcher raises IndexError.
  pub list_id_exhausted :
      (s : ListMatcher W) → remaining one truthy s ≡ [] → list_id one truthy s ≡ err index_error
  unfolding list_id
  list_id_exhausted s e = elim (remaining_cases s) [
    | inl (w, h) ↦ rw (get_elem?_beyond s.ids s.i h) refl
    | inr (d, g, f, h) ↦
        let no : [] ≡ (d, rate one truthy s s.i) ∷ remaining one truthy (list_next one truthy s) =
          sym e ∙ f in
        absurd (cc no)
  ]

  one_of-listed :
      (o : Option (List W)) (n j : ℕ)
      → Fits one truthy o n
      → j < n
      → one_of one truthy o j ≡ ok (listed one truthy o j)
  unfolding one_of
  one_of-listed none n j f h = refl
  one_of-listed (some []) n j f h = refl
  one_of-listed (some (w ∷ ws)) n j f h = rw (get_elem?-get_or (w ∷ ws) j one (omega arith))

  list_weight-rate :
      (s : ListMatcher W)
      → Fits one truthy s.weights (length s.ids)
      → s.i < length s.ids
      → list_weight one truthy s ≡ ok (rate one truthy s s.i)
  unfolding list_weight
  list_weight-rate s f h = ground (arith, one_of-listed s.weights (length s.ids) s.i f h)

  step-IsListed :
      (s : ListMatcher W) (p : ℕ × W) (ps : List (ℕ × W))
      → IsListed one truthy s
      → remaining one truthy s ≡ p ∷ ps
      → (get_elem? s.ids s.i ≡ some p.0)
        × (s.i < length s.ids)
        × (rate one truthy s s.i ≡ p.1)
        × IsListed one truthy (list_next one truthy s)
        × (remaining one truthy (list_next one truthy s) ≡ ps)
  step-IsListed s p ps v e = elim (remaining_cases s) [
    | inl (e', h) ↦ absurd (cc (e', e))
    | inr (d, g, f, h) ↦
        let tail : remaining one truthy (list_next one truthy s) ≡ ps = cc (f, e) in
        let at : d ≡ p.0 = cc (f, e) in
        let there : rate one truthy s s.i ≡ p.1 = cc (f, e) in
        (
          rw (← at) g,
          h,
          there,
          record { rising = rw tail (rw e at v.rising).1; fits = unfold list_next in v.fits },
          tail,
        )
  ]

  list_skip_loop-from :
      (t : ℕ) (ps : List (ℕ × W)) (fuel : ℕ) (s : ListMatcher W)
      → IsListed one truthy s
      → remaining one truthy s ≡ ps
      → length ps < fuel
      → Moves (list_spec one truthy) (list_skip_loop one truthy fuel t s) (from t ps)
  unfolding list_skip_loop list_next
  list_skip_loop-from t ps zero s v e h = absurd (omega arith)
  list_skip_loop-from t [] (suc fuel) s v e h = elim (remaining_cases s) [
    | inl (e', k) ↦ rw (le→ltb _ _ k) (unfold from in (s, refl, v, e))
    | inr (d, g, f, k) ↦ absurd (cc (f, e))
  ]
  list_skip_loop-from t (p ∷ ps) (suc fuel) s v e h =
      let (g, k, r, v', e') = step-IsListed s p ps v e in
      rw (lt→ltb _ _ k, g)
        (elim (Bool-cases (ltb p.0 t)) [
          | inl below ↦ rw below (
              rw (from_below t p ps below)
                (list_skip_loop-from t ps fuel (list_next one truthy s) v' e' (omega arith)))
          | inr high ↦
              rw high (s, refl, v, e ∙ sym (from_head t p ps (rw e at v.rising) (ground arith)))
        ])

  list_skip_to-from :
      (t : ℕ) (s : ListMatcher W) (p : ℕ × W) (ps : List (ℕ × W))
      → IsListed one truthy s
      → remaining one truthy s ≡ p ∷ ps
      → Moves (list_spec one truthy) (list_skip_to one truthy t s) (from t (p ∷ ps))
  unfolding list_skip_to
  list_skip_to-from t s p ps v e =
      let (g, k, r, v', e') = step-IsListed s p ps v e in
      rw (lt→ltb _ _ k, g)
        (elim (Bool-cases (ltb t p.0)) [
          | inl past ↦
              rw past (s, refl, v, e ∙ sym (from_head t p ps (rw e at v.rising) (ground arith)))
          | inr behind ↦ rw behind (
              list_skip_loop-from t (p ∷ ps) (suc (length s.ids)) s v e
                (omega (arith, length-remaining s, ap length e)))
        ])

  active-eq : (s : ListMatcher W) → list_is_active one truthy s ≡ nonempty (remaining one truthy s)
  unfolding list_is_active
  active-eq s = elim (remaining_cases s) [
    | inl (e, k) ↦ rw (e, le→ltb _ _ k)
    | inr (d, g, f, k) ↦ rw (f, lt→ltb _ _ k)
  ]

  -- A list matcher over sorted document numbers, without a scorer, does on its remaining postings
  -- what the interface promises of is_active, id, score, next and skip_to.
  pub list_matcher-Implements : Implements (list_matcher one truthy) (list_spec one truthy)
  unfolding list_id list_score
  list_matcher-Implements = record {
    steps = record {
      sorted = λ s v. v.rising;
      active = λ s v. active-eq s;
      bounded = λ s v. length-remaining s;
      id_lem =
          λ s p ps v e. let (g, k, r, v', e') = step-IsListed s p ps v e in rw g (s, refl, v, e);
      score_lem = λ s p ps v e.
          let (g, k, r, v', e') = step-IsListed s p ps v e in
          rw (list_weight-rate s v.fits k, r) (s, refl, v, e);
      next_lem = λ s p ps v e.
          let (g, k, r, v', e') = step-IsListed s p ps v e in
          (list_next one truthy s, refl, v', e');
    };
    skip_to_lem = list_skip_to-from;
  }
