-- ===== src/Magnet.antt =====
-- `MagnetUri` (src/magneturi.cpp): the forms of a source text. What wxWidgets and libtorrent do is an
-- argument: `lower` is `Lower`, `decode` is `wxBase64Decode`, `split` is `wxStringTokenizer` over
-- slashes, and `parse` is `lt::parse_magnet_uri`, with the name and the hash that it reads. A hash is
-- the number that its text stands for.
pub mod Settled
pub mod Tests
use bitswash.Prelude.{
  ℕ, zero, suc, List, [], ◌∷◌, ◌++◌, Option, none, some, Bool, true, false, ◌&&◌, ◌||◌, leb, ◌==◌,
  if◌then◌else◌, length, drop,
}
use bitswash.Wx.{Chars, codes}

take : ℕ → Chars → Chars
take zero cs = []
take (suc n) [] = []
take (suc n) (c ∷ cs) = c ∷ take n cs

starts_with : Chars → Chars → Bool
starts_with [] cs = true
starts_with (p ∷ ps) [] = false
starts_with (p ∷ ps) (c ∷ cs) = p == c && starts_with ps cs

every : (ℕ → Bool) → Chars → Bool
every p [] = true
every p (c ∷ cs) = p c && every p cs

-- What the regular expressions `[^0-9A-Fa-f]` and `[^2-7A-Za-z]` do not match.
abbrev is_hex : ℕ → Bool
is_hex c = (leb b'0' c && leb c b'9') || ((leb b'A' c && leb c b'F') || (leb b'a' c && leb c b'f'))

abbrev is_base32 : ℕ → Bool
is_base32 c =
    (leb b'2' c && leb c b'7') || ((leb b'A' c && leb c b'Z') || (leb b'a' c && leb c b'z'))

abbrev pub scheme : Chars
scheme = codes "magnet:?xt=urn:btih:"

-- The second and the fourth of five parts: the name of the file and the hash.
unfoldable pub link_of_parts : List Chars → Chars
link_of_parts (a ∷ filename ∷ b ∷ hash ∷ c ∷ []) = scheme ++ (hash ++ (codes "&dn=" ++ filename))
link_of_parts _ = []

-- A hash of 40 hexadecimal digits or of 32 letters and digits of base 32.
unfoldable pub is_bare_hash : Chars → Bool
unfolding every
is_bare_hash s = (length s == 40 && every is_hex s) || (length s == 32 && every is_base32 s)

-- What the constructor leaves: whether the source is valid, and the URL, the hash and the name.
pub record Magnet : Type 0 where
  pub m_valid : Bool
  pub m_url : Chars
  pub m_hash : ℕ
  pub m_name : Chars

module _ (lower : Chars → Chars) (decode : Chars → Chars) (split : Chars → List Chars) where
  unfoldable pub bc_link_to_magnet : Chars → Chars
  bc_link_to_magnet link = link_of_parts (split (decode (drop 8 link)))

  -- The URL that a source text stands for.
  unfoldable pub magnet_url : Chars → Chars
  unfolding take starts_with
  magnet_url [] = []
  magnet_url (c ∷ cs) =
      let s = c ∷ cs in
      let head = lower (take 20 s) in
      if starts_with (codes "bc://bt/") head
      then bc_link_to_magnet s
      else if (length s == 60 || length s == 52) && starts_with scheme head
      then s
      else if is_bare_hash s
      then scheme ++ s
      else s

  -- `none` from `parse` is an error code; `print_hash` is the text of a hash.
  unfoldable pub magnet_uri : (Chars → Option (Chars × ℕ)) → (ℕ → Chars) → Chars → Magnet
  magnet_uri parse print_hash [] = record { m_valid = false; m_url = []; m_hash = 0; m_name = [] }
  magnet_uri parse print_hash (c ∷ cs) =
      let url = magnet_url (c ∷ cs) in
      elim (parse url) [
        | none ↦ record { m_valid = false; m_url = url; m_hash = 0; m_name = [] }
        | some (name, h) ↦ record {
          m_valid = true;
          m_url = url;
          m_hash = h;
          m_name = elim name [ [] ↦ print_hash h | d ∷ ds ↦ d ∷ ds ];
        }
      ]
