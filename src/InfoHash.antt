-- ===== src/InfoHash.antt =====
-- `InfoHash` (src/infohash.h, src/infohash.cpp): a torrent's hash as 20 bytes and as text. Characters
-- and bytes are numbers. What libtorrent prints for a hash (`to_hex`) is an argument.
pub mod RoundTrip
use bitswash.Prelude.{
  ℕ, suc, ℤ, pos, negsuc, ◌+◌, ◌-◌, ◌*◌, ◌%◌, List, [], ◌∷◌, ◌++◌, Bool, true, false, ◌&&◌, ltb,
  leb, ◌==◌, if◌then◌else◌, length, replicate,
}

-- `c >= lo && c <= hi`
abbrev pub between : ℕ → ℕ → ℕ → Bool
between lo hi c = leb lo c && leb c hi

-- '0' is 48, 'A' is 65 and 'a' is 97.
unfoldable pub hex_to_int : ℕ → ℤ
hex_to_int c =
    if between 48 57 c
    then pos (c - 48)
    else if between 65 70 c
    then pos (c - 65 + 10)
    else if between 97 102 c
    then pos (c - 97 + 10)
    else negsuc 0

-- One byte in front of the bytes already decoded.
abbrev pub prepend : ℕ → Bool × List ℕ → Bool × List ℕ
prepend b (valid, bytes) = (valid, b ∷ bytes)

-- The loop of `from_hex`, with the bytes that it writes; a bad second digit leaves half a byte.
-- `char(t1 << 4)` is a byte, and `|=` adds a digit to its empty low half.
unfoldable pub from_hex : List ℕ → Bool × List ℕ
from_hex [] = (true, [])
from_hex (c ∷ []) = (false, [])
from_hex (c ∷ d ∷ rest) =
    let after = from_hex rest in
    elim (hex_to_int c) [
      | ℤ.negsuc n ↦ (false, [])
      | ℤ.pos t1 ↦ elim (hex_to_int d) [
        | ℤ.negsuc n ↦ (false, t1 * 16 % 256 ∷ [])
        | ℤ.pos t2 ↦ prepend (t1 * 16 % 256 + t2 % 16) after
      ]
    ]

pub record InfoHash : Type 0 where
  pub valid : Bool
  pub native_hash : List ℕ
  pub hash_string : List ℕ

-- `sha1_hash` starts as 20 zero bytes, which `from_hex` overwrites from the front.
abbrev pub pad : List ℕ → List ℕ
pad bytes = bytes ++ replicate (20 - length bytes) 0

-- `InfoHash(nativeHash)`
unfoldable pub from_native : (List ℕ → List ℕ) → List ℕ → InfoHash
from_native to_hex n = record { valid = true; native_hash = n; hash_string = to_hex n }

-- `InfoHash(hashString)`
unfoldable pub from_string : List ℕ → InfoHash
from_string t =
    if length t == 40
    then record { valid = (from_hex t).0; native_hash = pad (from_hex t).1; hash_string = t }
    else record { valid = false; native_hash = pad []; hash_string = t }
