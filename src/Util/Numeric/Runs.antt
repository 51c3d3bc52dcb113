-- ===== src/Util/Numeric/Runs.antt =====
-- numeric.py: runs of split_ranges.
use whooshy.Common.{◌≡◌, refl, [], ◌∷◌}
use whooshy.Common.Result.{ok}
use whooshy.Util.Numeric.{split_ranges}

-- From 3 to 42, with 8 bits and a step of 4: the edges at full precision, the middle in blocks.
split_run : split_ranges 8 4 3 42 ≡ ok ((3, 15, 0) ∷ (32, 42, 0) ∷ (16, 31, 4) ∷ [])
unfolding split_ranges
split_run = refl

-- From 0 to 5: the end of the next round is below zero, and the mask makes it a large number, so that
-- the second range has all numbers from 0 to 511.
wrapped_run : split_ranges 8 4 0 5 ≡ ok ((0, 5, 0) ∷ (0, 511, 4) ∷ [])
unfolding split_ranges
wrapped_run = refl
