-- ===== src/Counters/Window.antt =====
-- What the rates of `UpdateCounters` (src/bittorrentsession.cpp) are measured over.
use bitswash.Prelude.{
  ℕ, ◌+◌, ◌-◌, ◌^◌, ◌≤◌, ◌<◌, ℤ, List, [], ◌∷◌, some, ltb, ◌==◌, ◌⊎◌, inl, inr, ◌≡◌, refl, arith,
  length, get_elem?, get_elem?-some, Returns, returns, Bool-cases,
}
use bitswash.Counters.{Counters, since, difference, age, rate_of, set_rates, update_counters}

abbrev pub Sample : Type 0
Sample = ℕ × List ℤ

abbrev pub In : Sample → List Sample → Type 0
In x [] = ⊥
In x (y ∷ ys) = (x ≡ y) ⊎ In x ys

since_lem : (t u : ℕ) → u ≤ t → t < 2 ^ 64 → since t u ≡ t - u
unfolding since
since_lem t u h k = omega arith

module _ {Rate : Type 0} (rate : ℤ → ℕ → Rate) (recv sent : ℕ) where
  abbrev pub HasBoth : List ℤ → Type 0
  HasBoth counts = (recv < length counts) × (sent < length counts)

  -- Both sets of counters are of the updates so far, with their times.
  pub record IsSampled (h : List Sample) (c : Counters Rate) : Type 0 where
    pub recent_in : In (c.recent_time, c.recent) h
    pub previous_in : In (c.previous_time, c.previous) h
    pub in_order : c.previous_time ≤ c.recent_time
    pub recent_both : HasBoth c.recent
    pub previous_both : HasBoth c.previous

  -- The rates are those between the two times.
  pub record IsMeasured (d : Counters Rate) : Type 0 where
    pub download :
        (a b : ℤ)
        → get_elem? d.recent recv ≡ some a
        → get_elem? d.previous recv ≡ some b
        → d.previous_time < d.recent_time
        → d.download_rate ≡ rate (difference a b) (d.recent_time - d.previous_time)
    pub upload :
        (a b : ℤ)
        → get_elem? d.recent sent ≡ some a
        → get_elem? d.previous sent ≡ some b
        → d.previous_time < d.recent_time
        → d.upload_rate ≡ rate (difference a b) (d.recent_time - d.previous_time)

  pub record Updated (h : List Sample) (gap : ℕ) (d : Counters Rate) : Type 0 where
    pub sampled : IsSampled h d
    pub measured : IsMeasured d
    pub window :
        (d.recent_time ≤ d.previous_time + 2000000) ⊎ (d.recent_time ≤ d.previous_time + gap)

  set_rates-Updated :
      (h : List Sample) (gap : ℕ) (d : Counters Rate)
      → IsSampled h d
      → d.recent_time < 2 ^ 64
      → (d.recent_time ≤ d.previous_time + 2000000) ⊎ (d.recent_time ≤ d.previous_time + gap)
      → Returns (Updated h gap) (set_rates rate recv sent d)
  unfolding set_rates rate_of
  set_rates-Updated h gap d v k window =
      let span = since_lem d.recent_time d.previous_time v.in_order k in
      let (a, p) = get_elem?-some d.recent recv v.recent_both.0 in
      let (b, q) = get_elem?-some d.previous recv v.previous_both.0 in
      let (x, r) = get_elem?-some d.recent sent v.recent_both.1 in
      let (y, s) = get_elem?-some d.previous sent v.previous_both.1 in
      elim (Bool-cases (d.recent_time - d.previous_time == 0)) [
        | inl e ↦
            rw (span, e, set_rates)
              (returns (record {
                sampled = v;
                measured = record {
                  download = λ m n i j l. absurd (ground (arith, e, l));
                  upload = λ m n i j l. absurd (ground (arith, e, l));
                };
                window = window;
              }))
        | inr e ↦
            rw (span, e, p, q, r, s, set_rates, rate_of)
              (returns (record {
                sampled = record {
                  recent_in = v.recent_in;
                  previous_in = v.previous_in;
                  in_order = v.in_order;
                  recent_both = v.recent_both;
                  previous_both = v.previous_both;
                };
                measured = record {
                  download = λ m n i j l. ground (arith, p, q, i, j);
                  upload = λ m n i j l. ground (arith, r, s, i, j);
                };
                window = window;
              }))
      ]

  -- Where the two sets of counters and their times are of earlier updates, in order, and the time
  -- of a new update is below 2^64 and not before the last one, and each set has both counters,
  -- `UpdateCounters` accesses nothing out of range; both sets are of updates again; each rate is
  -- the difference of its counter between the two times, over the time between them, where that
  -- is not 0; and that time is at most two seconds, or at most the time since the last update.
  pub update_counters-Updated :
      (h : List Sample) (counts : List ℤ) (t : ℕ) (c : Counters Rate)
      → IsSampled h c
      → HasBoth counts
      → c.recent_time ≤ t
      → t < 2 ^ 64
      → Returns
          (Updated ((t, counts) ∷ h) (t - c.recent_time))
          (update_counters rate recv sent counts t c)
  unfolding update_counters age
  update_counters-Updated h counts t c v both later k =
      let span = since_lem t c.previous_time (omega (arith, v.in_order)) k in
      elim (Bool-cases (ltb 2000000 (since t c.previous_time))) [
        | inl e ↦
            rw (e, update_counters, age)
              (set_rates-Updated ((t, counts) ∷ h) (t - c.recent_time) _
                (record {
                  recent_in = inl refl;
                  previous_in = inr v.recent_in;
                  in_order = later;
                  recent_both = both;
                  previous_both = v.recent_both;
                })
                k (inr (omega arith)))
        | inr e ↦
            rw (e, update_counters, age)
              (set_rates-Updated ((t, counts) ∷ h) (t - c.recent_time) _
                (record {
                  recent_in = inl refl;
                  previous_in = inr v.previous_in;
                  in_order = omega (arith, v.in_order);
                  recent_both = both;
                  previous_both = v.previous_both;
                })
                k (inl (ground (arith, e, span))))
      ]
