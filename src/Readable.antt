-- ===== src/Readable.antt =====
-- `HumanReadableByte` and `HumanReadableTime` (src/functions.cpp), but for the text they print: the
-- unit and the divisor that a size is shown in, and the parts of a time. Sizes are whole numbers.
use bitswash.Prelude.{
  ℕ, zero, suc, ◌+◌, ◌*◌, ◌/◌, ◌%◌, ◌^◌, ◌≤◌, ◌<◌, ◌≡◌, refl, arith, inl, inr, true, ltb,
  if◌then◌else◌, Bool-cases, ◌⊎◌,
}

-- The loop with `fuel` rounds left: the unit `i` and the divisor `ivl`.
unfoldable pub unit_loop : ℕ → ℕ → ℕ → ℕ → ℕ × ℕ
unit_loop zero byte i ivl = (i, ivl)
unit_loop (suc fuel) byte i ivl =
    let next = unit_loop fuel byte (suc i) (ivl * 1_024) in
    if ltb byte ivl then (i, ivl / 1_024) else next

-- `MAX_UNITS` rounds.
unfoldable pub readable_unit : ℕ → ℕ × ℕ
readable_unit byte = unit_loop 5 byte 0 1_024

pub record TimeParts : Type 0 where
  pub days : ℕ
  pub hours : ℕ
  pub mins : ℕ
  pub secs : ℕ

unfoldable pub time_parts : ℕ → TimeParts
time_parts second = record {
  days = second / 86_400;
  hours = second % 86_400 / 3_600;
  mins = second % 3_600 / 60;
  secs = second % 60;
}

-- The divisor is that of the unit, and the shown number is below 1024 and, but for bytes, at least 1.
pub record IsScaled (byte i divisor : ℕ) : Type 0 where
  pub unit : i < 5
  pub divisor_of_unit : divisor ≡ 1_024 ^ i
  pub upper : byte < divisor * 1_024
  pub lower : (i ≡ 0) ⊎ (divisor ≤ byte)

-- For a size below 1024 to the 5th, `HumanReadableByte` chooses one of its 5 units, divides by
-- 1024 to the power of that unit, and shows a number below 1024 that is at least 1 unless the
-- unit is a byte.
pub readable_unit-IsScaled :
    (byte : ℕ)
    → byte < 1_125_899_906_842_624
    → IsScaled byte (readable_unit byte).0 (readable_unit byte).1
unfolding readable_unit unit_loop
readable_unit-IsScaled byte h = elim (Bool-cases (ltb byte 1_024)) [
  | inl a ↦
      rw (a, readable_unit, unit_loop)
        (record {
          unit = omega arith;
          divisor_of_unit = refl;
          upper = ground (arith, a);
          lower = inl refl;
        })
  | inr a ↦ elim (Bool-cases (ltb byte 1_048_576)) [
    | inl b ↦
        rw (a, b)
          (record {
            unit = omega arith;
            divisor_of_unit = refl;
            upper = ground (arith, b);
            lower = inr (ground (arith, a));
          })
    | inr b ↦ elim (Bool-cases (ltb byte 1_073_741_824)) [
      | inl c ↦
          rw (a, b, c)
            (record {
              unit = omega arith;
              divisor_of_unit = refl;
              upper = ground (arith, c);
              lower = inr (ground (arith, b));
            })
      | inr c ↦ elim (Bool-cases (ltb byte 1_099_511_627_776)) [
        | inl d ↦
            rw (a, b, c, d)
              (record {
                unit = omega arith;
                divisor_of_unit = refl;
                upper = ground (arith, d);
                lower = inr (ground (arith, c));
              })
        | inr d ↦
            let e : ltb byte 1_125_899_906_842_624 ≡ true = ground arith in
            rw (a, b, c, d, e)
              (record {
                unit = omega arith;
                divisor_of_unit = refl;
                upper = omega (arith, h);
                lower = inr (ground (arith, d));
              })
      ]
    ]
  ]
]

-- For a size of at least 1024 to the 5th, `HumanReadableByte` chooses unit 5, of units 0 to 4.
pub readable_unit-beyond : (byte : ℕ) → 1_125_899_906_842_624 ≤ byte → (readable_unit byte).0 ≡ 5
unfolding readable_unit unit_loop
readable_unit-beyond byte h = ground arith

-- The parts of a time of day, and the days, make up the time.
pub record IsTime (second : ℕ) (t : TimeParts) : Type 0 where
  pub total : t.days * 86_400 + t.hours * 3_600 + t.mins * 60 + t.secs ≡ second
  pub hour : t.hours < 24
  pub minute : t.mins < 60
  pub sec : t.secs < 60

-- The days, hours, minutes and seconds of `HumanReadableTime` add up to the time, with less than
-- 24 hours, 60 minutes and 60 seconds.
pub time_parts-IsTime : (second : ℕ) → IsTime second (time_parts second)
unfolding time_parts
time_parts-IsTime second = record {
  total = omega arith;
  hour = omega arith;
  minute = omega arith;
  sec = omega arith;
}
