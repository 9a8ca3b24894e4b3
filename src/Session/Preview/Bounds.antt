-- ===== src/Session/Preview/Bounds.antt =====
-- The pieces that a preview raises are pieces of the torrent.
use bitswash.Prelude.{
  ℕ, zero, suc, ◌+◌, ◌-◌, ◌*◌, ◌/◌, ◌≤◌, ◌<◌, ◌≡◌, refl, ◌∙◌, arith, List, some, Bool, ◌&&◌, ◌||◌,
  leb, ltb, if◌then◌else◌, length, get_elem?, set, length-set, get_elem?-set,
}
use native.Mathlib.Nat.{div-mul-le_self, le-div_iff_mul-le, div-lt_iff_lt-mul}
use bitswash.Torrent.{FileEntry, file_highest}
use bitswash.Session.Preview.{first_piece, last_piece, preview_pieces, raise_ends}

-- Where pieces are not empty and `n` of them cover the file, each of the pieces that a preview
-- raises from the first piece of the file on is at most the file's last piece, and that is one of
-- the `n` pieces.
pub preview_pieces-in_range :
    (len n j : ℕ) (f : FileEntry)
    → 0 < len
    → f.file_offset + f.file_size ≤ n * len
    → j < preview_pieces len f
    → (first_piece len f + j ≤ last_piece len f) × (last_piece len f < n)
preview_pieces-in_range len n j f p q r =
    let o = f.file_offset in
    let s = f.file_size in
    let big : 0 < 100 * len = omega arith in
    let a : o / len * len ≤ o = div-mul-le_self o len in
    let b : suc j * (100 * len) ≤ s + (100 * len - 1) =
      (le-div_iff_mul-le big).0 (omega (arith, r)) in
    let c : j * len < s = omega (arith, b, p) in
    let d : (o / len + j) * len ≤ o + s - 1 = omega (arith, a, c) in
    let e : o + s - 1 < n * len = omega (arith, q, c) in
    ((le-div_iff_mul-le p).1 d, (div-lt_iff_lt-mul p).1 e)

length-raise_ends :
    (n first last : ℕ) (pp : List ℕ) → length (raise_ends n first last pp) ≡ length pp
unfolding raise_ends
length-raise_ends zero first last pp = refl
length-raise_ends (suc n) first last pp =
    let once = raise_ends n first last pp in
    length-set (set once (first + n) file_highest) (last - n) file_highest
    ∙ length-set once (first + n) file_highest
    ∙ length-raise_ends n first last pp

-- The `n` positions from `first` on, and the `n` positions up to `last`.
abbrev pub is_end : ℕ → ℕ → ℕ → ℕ → Bool
is_end n first last p = (leb first p && ltb p (first + n)) || (leb p last && ltb last (p + n))

-- Where the two ends are in range, the loop that raises `n` pieces at both ends of a file gives
-- the highest priority to the `n` pieces from the first one on and to the `n` pieces up to the
-- last one, and leaves every other piece as it is.
pub get_elem?-raise_ends :
    (n first last p : ℕ) (pp : List ℕ)
    → first + n ≤ length pp
    → last < length pp
    → n ≤ suc last
    → get_elem? (raise_ends n first last pp) p
      ≡ (if is_end n first last p then some file_highest else get_elem? pp p)
unfolding raise_ends
get_elem?-raise_ends zero first last p pp a b c = ground arith
get_elem?-raise_ends (suc n) first last p pp a b c =
    let once = raise_ends n first last pp in
    let size = length-raise_ends n first last pp in
    let before = get_elem?-raise_ends n first last p pp (omega arith) b (omega arith) in
    let front = get_elem?-set once (first + n) file_highest p (omega arith) in
    let back =
      get_elem?-set (set once (first + n) file_highest) (last - n) file_highest p
        (omega (arith, length-set once (first + n) file_highest)) in
    ground (arith, before, front, back)
