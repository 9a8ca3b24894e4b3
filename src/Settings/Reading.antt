-- ===== src/Settings/Reading.antt =====
-- `wxConfigBase::Read` with a default, at the types of the fields: an entry that is missing, or is
-- no number where one is asked for, gives the default. The environment variables in a default text
-- are expanded too, which concerns the download path of a torrent. What is read into an `int` or an
-- `unsigned int` is cut to 32 bits.
use bitswash.Prelude.{
  ℕ, ◌-◌, ◌%◌, ◌^◌, ◌≤◌, ◌<◌, ℤ, pos, negsuc, neg_part, pos_part, String, Option, none, some, Bool,
  ltb, if◌then◌else◌, ltb_ℤ, ◌≡◌, arith,
}
use bitswash.Wx.{Chars, WxText, FileConfig}

-- The names of a file with their texts.
abbrev pub Reader : Type 0
Reader = String → Option Chars

-- Conversion to `unsigned int`, and from there to `int`.
unfoldable pub uint32 : ℤ → ℕ
uint32 (pos n) = n % 2 ^ 32
uint32 (negsuc n) = 2 ^ 32 - 1 - n % 2 ^ 32

unfoldable pub as_int32 : ℕ → ℤ
as_int32 n = if ltb n (2 ^ 31) then pos n else negsuc (2 ^ 32 - 1 - n)

unfoldable pub int32 : ℤ → ℤ
int32 z = as_int32 (uint32 z)

-- The values of the types.
abbrev pub IsInt : ℤ → Type 0
IsInt z = (pos_part z < 2 ^ 31) × (neg_part z ≤ 2 ^ 31)

abbrev pub IsUint : ℕ → Type 0
IsUint n = n < 2 ^ 32

abbrev pub IsUint8 : ℕ → Type 0
IsUint8 n = n < 256

pub uint32-as_int32 : (n : ℕ) → IsUint n → uint32 (as_int32 n) ≡ n
unfolding uint32 as_int32
uint32-as_int32 n h = ground arith

pub int32_lem : (z : ℤ) → IsInt z → int32 z ≡ z
unfolding int32 uint32 as_int32
int32_lem (pos n) h = ground arith
int32_lem (negsuc n) h = ground arith

unfoldable pub read_text : Reader → String → Chars → Chars
read_text read k d = elim (read k) [ none ↦ d | some t ↦ t ]

module _ (w : WxText) where
  unfoldable pub read_long : Reader → String → ℤ → ℤ
  read_long read k d = elim (read k) [
    | none ↦ d
    | some t ↦ elim (w.to_long t) [ none ↦ d | some z ↦ z ]
  ]

  unfoldable pub read_int : Reader → String → ℤ → ℤ
  read_int read k d = int32 (read_long read k d)

  unfoldable pub read_uint : Reader → String → ℤ → ℕ
  read_uint read k d = uint32 (read_long read k d)

  unfoldable pub read_uint8 : Reader → String → ℤ → ℕ
  read_uint8 read k d = uint32 (read_long read k d) % 256

  unfoldable pub read_real : Reader → String → w.Real → w.Real
  read_real read k d = elim (read k) [
    | none ↦ d
    | some t ↦ elim (w.to_double t) [ none ↦ d | some x ↦ x ]
  ]

-- At least two uploads.
unfoldable pub two_uploads : ℤ → ℤ
two_uploads z = if ltb_ℤ z (pos 2) then pos 2 else z

module _ (f : FileConfig) where
  unfoldable pub read_bool : Reader → String → Bool → Bool
  read_bool read k d = elim (read k) [
    | none ↦ d
    | some t ↦ elim (f.to_bool t) [ none ↦ d | some b ↦ b ]
  ]
