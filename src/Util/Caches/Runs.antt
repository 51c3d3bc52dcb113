-- ===== src/Util/Caches/Runs.antt =====
-- cache.py: runs on a function of numbers that raises at 0.
use whooshy.Common.{ℕ, zero, suc, ◌≡◌, refl, [], ◌∷◌}
use whooshy.Common.Result.{Result, ok, err, value_error, key_error}
use whooshy.Automata.Labels.{number_keys}
use whooshy.Util.Caches.{Cache, wrapper}
use whooshy.Util.Caches.Sound.{Returns, wrapper-Returns}

abbrev predecessor : ℕ → Result ℕ
predecessor zero = err value_error
predecessor (suc n) = ok n

abbrev one_entry : Cache ℕ ℕ
one_entry = record { hits = 0; misses = 1; stored = (5, 4) ∷ []; usecount = (5, 1) ∷ [] }

wrapper-Returns_example : Returns predecessor 1 7 one_entry (wrapper 1 predecessor 7 one_entry)
wrapper-Returns_example = wrapper-Returns 1 predecessor 7 one_entry (refl, tt)

full_run :
    wrapper 1 predecessor 7 one_entry
    ≡ (ok 6, record { hits = 0; misses = 2; stored = (7, 6) ∷ []; usecount = (7, 1) ∷ [] })
unfolding wrapper
full_run = refl

abbrev failed : Cache ℕ ℕ
failed = (wrapper 1 predecessor 0 (record { hits = 0; misses = 0; stored = []; usecount = [] })).1

-- A call that raises is counted although it has no entry; when the cache is full, the entry that is
-- to be deleted for it is missing.
stray_run : (wrapper 1 predecessor 7 (wrapper 1 predecessor 5 failed).1).0 ≡ err key_error
unfolding wrapper
stray_run = refl
