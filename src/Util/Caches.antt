-- ===== src/Util/Caches.antt =====
-- src/whoosh/util/cache.py: the function that the decorators unbound_cache and lfu_cache make of one
-- that may raise. The cache is returned also where an exception is, since it is changed on the way.
pub mod Sound
pub mod Runs
use whooshy.Common.{
  ℕ, zero, suc, ◌+◌, ◌/◌, Bool, true, false, Option, none, some, List, [], ◌∷◌, length,
  if◌then◌else◌, ◌==◌, ltb,
}
use whooshy.Common.Result.{Result, Error, ok, err, key_error, or_raise, ◌>>=◌}
use whooshy.Common.Dict.{Eq, get, put}

-- The dictionary `data` is the field `stored`.
pub record Cache (K V : Type 0) : Type 0 where
  pub hits : ℕ
  pub misses : ℕ
  pub stored : List (K × V)
  pub usecount : List (K × ℕ)

abbrev pub or_zero : Option ℕ → ℕ
or_zero none = 0
or_zero (some n) = n

module _ {K : Type 0} where
  -- `nsmallest(n, iteritems(usecount), key=itemgetter(1))`: of equal counts the earlier comes first.
  pub insert_count : K × ℕ → List (K × ℕ) → List (K × ℕ)
  insert_count p [] = p ∷ []
  insert_count p (q ∷ counts) =
      let rest = insert_count p counts in if ltb q.1 p.1 then q ∷ rest else p ∷ q ∷ counts

  pub sort_counts : List (K × ℕ) → List (K × ℕ)
  unfolding insert_count
  sort_counts [] = []
  sort_counts (p ∷ counts) = insert_count p (sort_counts counts)

  pub take_keys : ℕ → List (K × ℕ) → List K
  take_keys zero counts = []
  take_keys (suc n) [] = []
  take_keys (suc n) (p ∷ counts) = p.0 ∷ take_keys n counts

-- `maxsize // 10 or 1`
pub evicted : ℕ → ℕ
evicted maxsize = let tenth = maxsize / 10 in if tenth == 0 then 1 else tenth

module _ {K V : Type 0} ⦃e : Eq K⦄ where
  -- `del data[k]`
  pub delete : K → List (K × V) → Result (List (K × V))
  delete k [] = err key_error
  delete k (p ∷ d) =
      let rest = delete k d >>= λ d'. ok (p ∷ d') in if e.eq p.0 k then ok d else rest

module _ {K V : Type 0} ⦃e : Eq K⦄ where
  -- The loop that deletes entries, with the exception that ends it, if any.
  pub evict_loop : List K → Cache K V → Option Error × Cache K V
  unfolding delete
  evict_loop [] s = (none, s)
  evict_loop (k ∷ ks) s = elim (delete k s.stored) [
    | err x ↦ (some x, s)
    | ok stored ↦ elim (delete k s.usecount) [
      | err x ↦ (some x, record s { stored = stored })
      | ok usecount ↦ evict_loop ks (record s { stored = stored; usecount = usecount })
    ]
  ]

  pub evict : ℕ → Cache K V → Option Error × Cache K V
  unfolding evict_loop take_keys sort_counts evicted
  evict maxsize s =
      if length s.stored == maxsize
      then evict_loop (take_keys (evicted maxsize) (sort_counts s.usecount)) s
      else (none, s)

  -- `usecount[args] += 1`
  pub count_use : K → Cache K V → Cache K V
  count_use args s = record s { usecount = put args (or_zero (get args s.usecount) + 1) s.usecount }

  module _ (maxsize : ℕ) (user_function : K → Result V) where
    -- The handler of the KeyError, that is, the computation of a new entry.
    pub miss : K → Cache K V → Result V × Cache K V
    unfolding evict
    miss args s =
        let (raised, s') = evict maxsize s in
        elim raised [
          | some x ↦ (err x, s')
          | none ↦ elim (user_function args) [
            | err x ↦ (err x, s')
            | ok v ↦ (ok v, record s' { stored = put args v s'.stored })
          ]
        ]

    unfoldable pub wrapper : K → Cache K V → Result V × Cache K V
    unfolding miss count_use
    wrapper args s = elim (get args s.stored) [
      | some result ↦ (ok result, count_use args (record s { hits = s.hits + 1 }))
      | none ↦
          let (result, s') = miss args (record s { misses = s.misses + 1 }) in
          (result, count_use args s')
    ]

  -- unbound_cache.
  pub caching_wrapper : (K → Result V) → K → List (K × V) → Result V × List (K × V)
  caching_wrapper func args cache = elim (get args cache) [
    | some result ↦ (ok result, cache)
    | none ↦ elim (func args) [ err x ↦ (err x, cache) | ok v ↦ (ok v, put args v cache) ]
  ]

  -- The statistics, and `cache_clear`, which keeps them.
  pub cache_info : ℕ → Cache K V → ℕ × ℕ × ℕ × ℕ
  cache_info maxsize s = (s.hits, s.misses, maxsize, length s.stored)

  pub cache_clear : Cache K V → Cache K V
  cache_clear s = record s { stored = []; usecount = [] }
