-- ===== src/Matching/Interface.antt =====
-- mcore.py, class Matcher: the interface of all matchers, and what an implementation promises.
use whooshy.Common.{
  ℕ, zero, suc, ◌+◌, ◌≤◌, ◌<◌, ◌≡◌, refl, Bool, List, [], ◌∷◌, arith, length, ltb, ◌==◌,
  if◌then◌else◌, Bool-cases, inl, inr, ◌∙◌,
}
use whooshy.Common.Result.{Result, ok, err, stuck, ◌>>=◌}
use whooshy.Matching.Postings.{IsSorted, nonempty, numbers, from}

-- The methods of a matcher whose state is `S` and whose scores are of type `W`. A method returns
-- the new state beside its result, since `id` and `score` may write a cache. `size` is no method:
-- it bounds the postings still to be read, and is the fuel of the loops.
pub record Matcher (S W : Type 0) : Type 0 where
  pub is_active : S → Bool
  pub id : S → Result (ℕ × S)
  pub next : S → Result S
  pub skip_to : ℕ → S → Result S
  pub score : S → Result (W × S)
  pub reset : S → Result S
  pub size : S → ℕ

-- What a matcher's state stands for: which states are meant to arise, and the postings that are
-- still to be read.
pub record Spec (S W : Type 0) : Type 1 where
  pub IsValid : S → Type 0
  pub view : S → List (ℕ × W)

module _ {S W : Type 0} (sp : Spec S W) where
  open sp use {IsValid, view}

  -- A call that returns a valid state, which stands for the postings `ps`.
  abbrev pub Moves : Result S → List (ℕ × W) → Type 0
  Moves r ps = (s' : S) × (r ≡ ok s') × IsValid s' × (view s' ≡ ps)

  -- A call that returns `a` and changes nothing that can be seen.
  abbrev pub Reads : {A : Type 0} → Result (A × S) → A → List (ℕ × W) → Type 0
  Reads {A} r a ps = (s' : S) × (r ≡ ok (a, s')) × IsValid s' × (view s' ≡ ps)

-- In every valid state the postings are sorted, and is_active, id, score, next and skip_to do on the
-- matcher what they say on the postings: none raises, and none runs out of fuel. `Steps` leaves skip_to
-- out. Nothing is promised of `reset`.
pub record Steps {S W : Type 0} (m : Matcher S W) (sp : Spec S W) : Type 0 where
  pub sorted : (s : S) → sp.IsValid s → IsSorted (sp.view s)
  pub active : (s : S) → sp.IsValid s → m.is_active s ≡ nonempty (sp.view s)
  pub bounded : (s : S) → sp.IsValid s → length (sp.view s) ≤ m.size s
  pub id_lem :
      (s : S) (p : ℕ × W) (ps : List (ℕ × W))
      → sp.IsValid s
      → sp.view s ≡ p ∷ ps
      → Reads sp (m.id s) p.0 (p ∷ ps)
  pub score_lem :
      (s : S) (p : ℕ × W) (ps : List (ℕ × W))
      → sp.IsValid s
      → sp.view s ≡ p ∷ ps
      → Reads sp (m.score s) p.1 (p ∷ ps)
  pub next_lem :
      (s : S) (p : ℕ × W) (ps : List (ℕ × W))
      → sp.IsValid s
      → sp.view s ≡ p ∷ ps
      → Moves sp (m.next s) ps

pub record Implements {S W : Type 0} (m : Matcher S W) (sp : Spec S W) : Type 0 where
  pub steps : Steps m sp
  pub open steps use *
  pub skip_to_lem :
      (t : ℕ) (s : S) (p : ℕ × W) (ps : List (ℕ × W))
      → sp.IsValid s
      → sp.view s ≡ p ∷ ps
      → Moves sp (m.skip_to t s) (from t (p ∷ ps))

module _ {S W : Type 0} (m : Matcher S W) where
  -- Matcher.all_ids: every tenth posting the matcher is replaced by a simpler one.
  pub all_ids_loop : (S → S) → ℕ → ℕ → S → Result (List ℕ)
  all_ids_loop replace zero i s = err stuck
  all_ids_loop replace (suc fuel) i s =
      if m.is_active s
      then (do
        (d, s1) ← m.id s
        s2 ← m.next s1
        let turn = i + 1 == 10
        let s3 = if turn then replace s2 else s2
        rest ← all_ids_loop replace fuel (if turn then 0 else i + 1) s3
        ok (d ∷ rest))
      else ok []

  unfoldable pub all_ids : (S → S) → S → Result (List ℕ)
  unfolding all_ids_loop
  all_ids replace s = all_ids_loop replace (suc (m.size s)) 0 s

  -- The base class's skip_to.
  pub skip_to_loop : ℕ → ℕ → S → Result S
  skip_to_loop zero t s = err stuck
  skip_to_loop (suc fuel) t s =
      if m.is_active s
      then (do
        (d, s1) ← m.id s
        if ltb d t then (do s2 ← m.next s1; skip_to_loop fuel t s2) else ok s1)
      else ok s

  unfoldable pub skip_to_default : ℕ → S → Result S
  unfolding skip_to_loop
  skip_to_default t s = skip_to_loop (suc (m.size s)) t s

-- A replacement that keeps what the matcher stands for.
pub record Keeps {S W : Type 0} (sp : Spec S W) (replace : S → S) : Type 0 where
  pub valid : (s : S) → sp.IsValid s → sp.IsValid (replace s)
  pub same : (s : S) → sp.IsValid s → sp.view (replace s) ≡ sp.view s

module _ {S W : Type 0} {m : Matcher S W} {sp : Spec S W} (im : Steps m sp) where
  all_ids_loop-numbers :
      (replace : S → S)
      → Keeps sp replace
      → (ps : List (ℕ × W)) (fuel i : ℕ) (s : S) → sp.IsValid s
      → sp.view s ≡ ps
      → length ps < fuel
      → all_ids_loop m replace fuel i s ≡ ok (numbers ps)
  unfolding all_ids_loop
  all_ids_loop-numbers replace keep ps zero i s v e h = absurd (omega arith)
  all_ids_loop-numbers replace keep [] (suc fuel) i s v e h = rw (im.active s v, e)
  all_ids_loop-numbers replace keep (p ∷ ps) (suc fuel) i s v e h =
      let (s1, e1, v1, w1) = im.id_lem s p ps v e in
      let (s2, e2, v2, w2) = im.next_lem s1 p ps v1 w1 in
      rw (im.active s v, e, e1, e2)
        (elim (Bool-cases (i + 1 == 10)) [
          | inl turn ↦ rw (
            turn,
            all_ids_loop-numbers replace keep ps fuel 0 (replace s2) (keep.valid s2 v2)
                (keep.same s2 v2 ∙ w2) (omega arith),
          )
          | inr other ↦
              rw (other, all_ids_loop-numbers replace keep ps fuel (i + 1) s2 v2 w2 (omega arith))
        ])

  -- From any valid state of a matcher that does what the interface promises, all_ids returns the
  -- document numbers of the view, in order, whatever replacement it uses that keeps the view; the
  -- fuel suffices.
  pub all_ids-numbers :
      (replace : S → S)
      → Keeps sp replace
      → (s : S) → sp.IsValid s
      → all_ids m replace s ≡ ok (numbers (sp.view s))
  unfolding all_ids
  all_ids-numbers replace keep s v =
      all_ids_loop-numbers replace keep (sp.view s) (suc (m.size s)) 0 s v refl
        (omega (arith, im.bounded s v))
