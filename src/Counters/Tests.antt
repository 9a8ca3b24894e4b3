-- ===== src/Counters/Tests.antt =====
-- An update three seconds after the last one but one.
use bitswash.Prelude.{ℕ, ℤ, pos, [], ◌∷◌, some, ◌≡◌, refl, arith, Returns, inl, inr}
use bitswash.Counters.{Counters, update_counters, set_rates, rate_of, age, since}
use bitswash.Counters.Window.{IsSampled, Updated, update_counters-Updated}

-- Rates as differences in a time.
abbrev pair : ℤ → ℕ → ℤ × ℕ
pair d t = (d, t)

abbrev counters : Counters (ℤ × ℕ)
counters = record {
  recent = pos 500 ∷ pos 50 ∷ [];
  previous = pos 100 ∷ pos 10 ∷ [];
  recent_time = 2000000;
  previous_time = 1000000;
  download_rate = (pos 400, 1000000);
  upload_rate = (pos 40, 1000000);
}

counters-IsSampled :
    IsSampled pair 0 1
      ((2000000, pos 500 ∷ pos 50 ∷ []) ∷ (1000000, pos 100 ∷ pos 10 ∷ []) ∷ [])
      counters
counters-IsSampled = record {
  recent_in = inl refl;
  previous_in = inr (inl refl);
  in_order = omega arith;
  recent_both = (omega arith, omega arith);
  previous_both = (omega arith, omega arith);
}

update_counters-Updated_example :
    Returns
      (Updated pair 0 1
        ((4000000, pos 900 ∷ pos 90 ∷ [])
          ∷ (2000000, pos 500 ∷ pos 50 ∷ [])
          ∷ (1000000, pos 100 ∷ pos 10 ∷ [])
          ∷ [])
        2000000)
      (update_counters pair 0 1 (pos 900 ∷ pos 90 ∷ []) 4000000 counters)
update_counters-Updated_example =
    update_counters-Updated pair 0 1
      ((2000000, pos 500 ∷ pos 50 ∷ []) ∷ (1000000, pos 100 ∷ pos 10 ∷ []) ∷ [])
      (pos 900 ∷ pos 90 ∷ []) 4000000 counters counters-IsSampled (omega arith, omega arith)
      (omega arith) (omega arith)

-- The new rates are those since the update before.
updated-rates :
    update_counters pair 0 1 (pos 900 ∷ pos 90 ∷ []) 4000000 counters
    ≡ some (record {
      recent = pos 900 ∷ pos 90 ∷ [];
      previous = pos 500 ∷ pos 50 ∷ [];
      recent_time = 4000000;
      previous_time = 2000000;
      download_rate = (pos 400, 2000000);
      upload_rate = (pos 40, 2000000);
    })
unfolding update_counters set_rates rate_of age since
updated-rates = refl
