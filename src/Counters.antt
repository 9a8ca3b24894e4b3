-- ===== src/Counters.antt =====
-- `UpdateCounters` (src/bittorrentsession.cpp): the rates of download and upload, from the counters
-- of libtorrent at two times. `Rate` stands for `wxDouble`, and `rate` divides a difference by
-- microseconds.
pub mod Window
pub mod Tests
use bitswash.Prelude.{
  ℕ, ◌+◌, ◌-◌, ◌%◌, ◌^◌, ℤ, sub_ℕ, pos_part, neg_part, List, Option, none, some, ltb, ◌==◌, ◌>>=◌,
  get_elem?, if◌then◌else◌,
}

-- `m_cnt` and `m_timestamp`, and the two rates.
pub record Counters (Rate : Type 0) : Type 0 where
  pub recent : List ℤ
  pub previous : List ℤ
  pub recent_time : ℕ
  pub previous_time : ℕ
  pub download_rate : Rate
  pub upload_rate : Rate

-- The difference of two `uint64_t`.
unfoldable pub since : ℕ → ℕ → ℕ
since t u = (t + 2 ^ 64 - u) % 2 ^ 64

abbrev pub difference : ℤ → ℤ → ℤ
difference a b = sub_ℕ (pos_part a + neg_part b) (pos_part b + neg_part a)

module _ {Rate : Type 0} (rate : ℤ → ℕ → Rate) (recv sent : ℕ) where
  -- The previous counters, replaced if they are older than two seconds.
  unfoldable pub age : ℕ → Counters Rate → Counters Rate
  age t c =
      if ltb 2000000 (since t c.previous_time)
      then record c { previous = c.recent; previous_time = c.recent_time }
      else c

  -- The rate of one counter; `none` is an access out of range.
  unfoldable pub rate_of : ℕ → Counters Rate → Option Rate
  rate_of k c = do
    a ← get_elem? c.recent k
    b ← get_elem? c.previous k
    some (rate (difference a b) (since c.recent_time c.previous_time))

  unfoldable pub set_rates : Counters Rate → Option (Counters Rate)
  set_rates c =
      if since c.recent_time c.previous_time == 0
      then some c
      else rate_of recv c >>= λ d.
          rate_of sent c >>= λ u. some (record c { download_rate = d; upload_rate = u })

  unfoldable pub update_counters : List ℤ → ℕ → Counters Rate → Option (Counters Rate)
  update_counters counts t c = set_rates (record (age t c) { recent = counts; recent_time = t })
