-- ===== src/InfoHash/RoundTrip.antt =====
-- The text of a hash gives the hash back.
use bitswash.Prelude.{
  ℕ, suc, pos, ◌+◌, ◌*◌, ◌/◌, ◌%◌, ◌<◌, ◌-◌, List, [], ◌∷◌, ◌++◌, true, some, ◌≡◌, refl, arith, ltb,
  if◌then◌else◌, length, get_elem?, replicate, append-nil, ◌==◌,
}
use bitswash.InfoHash.{hex_to_int, from_hex, from_native, from_string}

-- A lower-case hexadecimal digit.
abbrev pub hex_digit : ℕ → ℕ
hex_digit d = if ltb d 10 then 48 + d else 87 + d

abbrev pub AreBytes : List ℕ → Type 0
AreBytes bs = (i b : ℕ) → get_elem? bs i ≡ some b → b < 256

hex_to_int-hex_digit : (d : ℕ) → d < 16 → hex_to_int (hex_digit d) ≡ pos d
unfolding hex_to_int
hex_to_int-hex_digit d h = ground arith

module _ (to_hex : List ℕ → List ℕ) (to_hex_nil : to_hex [] ≡ [])
    (to_hex_cons : (b : ℕ) (bs : List ℕ)
      → to_hex (b ∷ bs) ≡ hex_digit (b / 16) ∷ hex_digit (b % 16) ∷ to_hex bs) where
  length-to_hex : (bs : List ℕ) → length (to_hex bs) ≡ 2 * length bs
  length-to_hex [] = rw to_hex_nil refl
  length-to_hex (b ∷ bs) = rw (to_hex_cons b bs) (omega (arith, length-to_hex bs))

  from_hex-to_hex : (bs : List ℕ) → AreBytes bs → from_hex (to_hex bs) ≡ (true, bs)
  unfolding from_hex
  from_hex-to_hex [] h = rw to_hex_nil refl
  from_hex-to_hex (b ∷ bs) h =
      let small : b < 256 = h 0 b refl in
      let high = hex_to_int-hex_digit (b / 16) (omega arith) in
      let low = hex_to_int-hex_digit (b % 16) (omega arith) in
      let byte : b / 16 * 16 % 256 + b % 16 % 16 ≡ b = omega arith in
      rw (to_hex_cons b bs, from_hex, high, low, from_hex-to_hex bs (λ i. h (suc i)), byte) refl

  -- If the printed text of a hash is two lower-case hexadecimal digits for each byte, then the
  -- `InfoHash` of the text of 20 bytes is the `InfoHash` of these bytes, and valid.
  pub from_string-from_native :
      (bs : List ℕ)
      → length bs ≡ 20
      → AreBytes bs
      → from_string (from_native to_hex bs).hash_string ≡ from_native to_hex bs
  unfolding from_string from_native
  from_string-from_native bs n h =
      let size : (length (to_hex bs) == 40) ≡ true = ground (arith, length-to_hex bs, n) in
      let full : bs ++ replicate (20 - length bs) 0 ≡ bs = rw n (append-nil bs) in
      rw (size, from_hex-to_hex bs h, full) refl
