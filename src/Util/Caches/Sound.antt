-- ===== src/Util/Caches/Sound.antt =====
-- What a cached function returns.
use whooshy.Common.{
  ℕ, ◌+◌, ◌≡◌, refl, sym, ◌∙◌, false, some, List, [], ◌∷◌, length, Bool-cases, Option-cases, inl,
  inr, ◌==◌,
}
use whooshy.Common.Result.{Result, Error, ok, Result-cases}
use whooshy.Common.Dict.{Eq, get, put}
use whooshy.Util.Caches.{
  Cache, take_keys, sort_counts, evicted, delete, evict_loop, evict, count_use, miss, wrapper,
}

module _ {K V : Type 0} ⦃e : Eq K⦄ where
  -- Each entry is what the function returns for its key.
  abbrev pub Honest : (K → Result V) → List (K × V) → Type 0
  Honest f [] = Unit
  Honest f (p ∷ d) = (f p.0 ≡ ok p.1) × Honest f d

  get-Honest :
      (f : K → Result V) (k : K) (d : List (K × V)) (v : V)
      → Honest f d
      → get k d ≡ some v
      → f k ≡ ok v
  get-Honest f k [] v h g = absurd (cc g)
  get-Honest f k (p ∷ d) v h g = elim (Bool-cases (e.eq p.0 k)) [
    | inl here ↦
        let same = (e.eq_iff p.0 k).0 here in
        let value : p.1 ≡ v = (let g' = rw here at g in cc g') in rw (← same, ← value) h.0
    | inr later ↦ get-Honest f k d v h.1 (rw later at g)
  ]

  put-Honest :
      (f : K → Result V) (k : K) (v : V) (d : List (K × V))
      → f k ≡ ok v
      → Honest f d
      → Honest f (put k v d)
  put-Honest f k v [] g h = (g, tt)
  put-Honest f k v (p ∷ d) g h = elim (Bool-cases (e.eq p.0 k)) [
    | inl here ↦ rw here (g, h.1)
    | inr later ↦ rw later (h.0, put-Honest f k v d g h.1)
  ]

  delete-Honest :
      (f : K → Result V) (k : K) (d d' : List (K × V))
      → Honest f d
      → delete k d ≡ ok d'
      → Honest f d'
  unfolding delete
  delete-Honest f k [] d' h g = absurd (cc g)
  delete-Honest f k (p ∷ d) d' h g = elim (Bool-cases (e.eq p.0 k)) [
    | inl here ↦ let same : d ≡ d' = (let g' = rw here at g in cc g') in rw (← same) h.1
    | inr later ↦ elim (Result-cases (delete k d)) [
      | inr (x, q) ↦ absurd (let bad = rw (later, q) at g in cc bad)
      | inl (rest, q) ↦
          let same : p ∷ rest ≡ d' = (let g' = rw (later, q) at g in cc g') in
          rw (← same) (h.0, delete-Honest f k d rest h.1 q)
    ]
  ]

  evict_loop-Honest :
      (f : K → Result V) (ks : List K) (s : Cache K V)
      → Honest f s.stored
      → Honest f (evict_loop ks s).1.stored
  unfolding evict_loop
  evict_loop-Honest f [] s h = h
  evict_loop-Honest f (k ∷ ks) s h = elim (Result-cases (delete k s.stored)) [
    | inr (x, q) ↦ rw (q, evict_loop) h
    | inl (stored, q) ↦
        let h' = delete-Honest f k s.stored stored h q in
        elim (Result-cases (delete k s.usecount)) [
          | inr (x, q') ↦ rw (q, q', evict_loop) h'
          | inl (usecount, q') ↦
              rw (q, q', evict_loop)
                (evict_loop-Honest f ks (record s { stored = stored; usecount = usecount }) h')
        ]
  ]

  evict-Honest :
      (f : K → Result V) (maxsize : ℕ) (s : Cache K V)
      → Honest f s.stored
      → Honest f (evict maxsize s).1.stored
  unfolding evict
  evict-Honest f maxsize s h = elim (Bool-cases (length s.stored == maxsize)) [
    | inl full ↦
        rw full (evict_loop-Honest f (take_keys (evicted maxsize) (sort_counts s.usecount)) s h)
    | inr free ↦ rw free h
  ]

  evict_free :
      (maxsize : ℕ) (s : Cache K V) (x : Error)
      → (length s.stored == maxsize) ≡ false
      → (evict maxsize s).0 ≡ some x
      → ⊥
  unfolding evict
  evict_free maxsize s x free q = let bad = rw free at q in cc bad

  -- What the wrapper returns in terms of what the function returns.
  abbrev pub Returns : (K → Result V) → ℕ → K → Cache K V → Result V × Cache K V → Type 0
  Returns f maxsize args s r =
      Honest f r.1.stored
      × ((v : V) → r.0 ≡ ok v → f args ≡ ok v)
      × ((length s.stored == maxsize) ≡ false → r.0 ≡ f args)

  miss-Returns :
      (maxsize : ℕ) (f : K → Result V) (args : K) (s : Cache K V)
      → Honest f s.stored
      → Returns f maxsize args s (miss maxsize f args s)
  unfolding miss
  miss-Returns maxsize f args s h = elim (Option-cases (evict maxsize s).0) [
    | inr (x, q) ↦
        rw (q, miss)
          (
            evict-Honest f maxsize s h,
            λ v bad. absurd (cc bad),
            λ free. absurd (evict_free maxsize s x free q),
          )
    | inl q ↦ elim (Result-cases (f args)) [
      | inr (x, g) ↦ rw (q, g, miss) (evict-Honest f maxsize s h, λ v bad. bad, λ free. refl)
      | inl (v, g) ↦
          rw (q, g, miss)
            (
              put-Honest f args v (evict maxsize s).1.stored g (evict-Honest f maxsize s h),
              λ w good. good,
              λ free. refl,
            )
    ]
  ]

  -- A cached function only returns what the function itself returns, provided that the cache holds only
  -- such values, which stays so; while the cache is not full, it returns or raises what the function does.
  pub wrapper-Returns :
      (maxsize : ℕ) (f : K → Result V) (args : K) (s : Cache K V)
      → Honest f s.stored
      → Returns f maxsize args s (wrapper maxsize f args s)
  unfolding wrapper count_use
  wrapper-Returns maxsize f args s h = elim (Option-cases (get args s.stored)) [
    | inr (v, g) ↦
        let true_value = get-Honest f args s.stored v h g in
        rw (g, wrapper) (h, λ w good. true_value ∙ good, λ free. sym true_value)
    | inl g ↦ rw (g, wrapper) (miss-Returns maxsize f args (record s { misses = s.misses + 1 }) h)
  ]
