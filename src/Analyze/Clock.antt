-- ===== src/Analyze/Clock.antt =====
-- `ModeData.cupti_offset` and `to_mono`: the map from CUPTI's clock to CLOCK_MONOTONIC_RAW.
--
-- The program takes the mean of the offsets of n calibration samples as a float. Here a time on the
-- mapped clock is a whole number of ticks, n of them to the nanosecond, so the mean and each sum
-- and comparison with it are exact; the rounding of floats is not modelled.
use cuda_schedule_project.Prelude.{ℕ, suc, ◌*◌, ◌/◌, List, [], ◌∷◌, map, length}
use cuda_schedule_project.Prelude.Int.{ℤ, pos, pos_part, neg_part, ◌+ℤ◌, ◌-ℤ◌, max_ℤ, min_ℤ}
use cuda_schedule_project.Analyze.Records.{CalibSample}

pub record Clock : Type 0 where
  -- Ticks to a nanosecond.
  pub unit : ℕ
  -- mono_ns - cupti_ns, in ticks.
  pub offset : ℤ
  -- The largest offset of a sample less the smallest, in ns.
  pub drift : ℤ

abbrev pub sample_offset : CalibSample → ℤ
sample_offset s = pos s.mono_ns -ℤ pos s.cupti_ns

unfoldable pub sum_ℤ : List ℤ → ℤ
unfolding ◌+ℤ◌
sum_ℤ [] = pos 0
sum_ℤ (z ∷ zs) = z +ℤ sum_ℤ zs

-- `offs.max()` and `offs.min()`, of the offsets behind a first one.
unfoldable pub max_of : ℤ → List ℤ → ℤ
unfolding max_ℤ
max_of m [] = m
max_of m (z ∷ zs) = max_of (max_ℤ m z) zs

unfoldable pub min_of : ℤ → List ℤ → ℤ
unfolding min_ℤ
min_of m [] = m
min_of m (z ∷ zs) = min_of (min_ℤ m z) zs

-- Of a calibration file with at least one sample.
unfoldable pub cupti_offset : CalibSample → List CalibSample → Clock
unfolding sum_ℤ max_of min_of ◌-ℤ◌
cupti_offset first rest =
    let offs = map sample_offset rest in
    record {
      unit = suc (length rest);
      offset = sum_ℤ (sample_offset first ∷ offs);
      drift = max_of (sample_offset first) offs -ℤ min_of (sample_offset first) offs;
    }

-- A time in ns as ticks.
abbrev pub ticks_of : Clock → ℕ → ℤ
ticks_of c ns = pos (ns * c.unit)

-- `cupti_ts + off`
unfoldable pub to_mono : Clock → ℕ → ℤ
unfolding ◌+ℤ◌
to_mono c ts = ticks_of c ts +ℤ c.offset

-- `int(t)`: whole nanoseconds, rounded towards zero.
unfoldable pub int_ns : Clock → ℤ → ℤ
unfolding ◌-ℤ◌
int_ns c t = pos (pos_part t / c.unit) -ℤ pos (neg_part t / c.unit)
