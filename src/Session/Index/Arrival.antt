-- ===== src/Session/Index/Arrival.antt =====
-- The position that a torrent without an index gets when libtorrent has added it.
use bitswash.Prelude.{
  ℕ, suc, ◌+◌, List, [], ◌∷◌, ◌++◌, some, true, false, not, ◌&&◌, ◌≡◌, refl, sym, ap, ◌∙◌, ◌⊎◌, inl,
  inr, arith, ◌==◌, length, get_elem?, length-append, Bool-cases, Returns, returns,
}
use mathlib.Core.List.{reverse, reverse-cons}
use bitswash.Session.{Session, set_qindex}
use bitswash.Session.Moving.{qindex_of}
use bitswash.Session.Alerts.{is_unindexed, last_indexed, assign_position}
use bitswash.Session.Frame.{Keeps, Keeps-refl, modify_config-Keeps}

-- The torrents of the list have indices, but for the last one.
abbrev pub ButLast : Session → List ℕ → Type 0
ButLast s xs =
    (i r : ℕ)
    → get_elem? xs i ≡ some r
    → (is_unindexed (qindex_of s r) ≡ false) ⊎ (suc i ≡ length xs)

last_indexed-append :
    (s : Session) (ys : List ℕ) (x : ℕ)
    → is_unindexed (qindex_of s x) ≡ false
    → (last_indexed s (ys ++ x ∷ [])).0 ≡ (last_indexed s ys).0 + 1
unfolding last_indexed
last_indexed-append s [] x e = rw e refl
last_indexed-append s (y ∷ ys) x e = elim (Bool-cases (is_unindexed (qindex_of s y))) [
  | inl d ↦ rw d (last_indexed-append s ys x e)
  | inr d ↦ rw d (omega (arith, length-append ys (x ∷ [])))
]

-- The search ends at the last position.
last_indexed-last :
    (s : Session) (x : ℕ) (xs : List ℕ)
    → ButLast s (x ∷ xs)
    → ((i r : ℕ)
        → get_elem? (x ∷ xs) i ≡ some r
        → suc i ≡ length (x ∷ xs)
        → is_unindexed (qindex_of s r) ≡ true)
    → (last_indexed s (reverse (x ∷ xs))).0 ≡ length xs
unfolding last_indexed
last_indexed-last s x [] h l = rw (l 0 x refl refl) refl
last_indexed-last s x (y ∷ ys) h l =
    let e : is_unindexed (qindex_of s x) ≡ false = first (h 0 x refl) in
    rw (reverse-cons x (y ∷ ys)) (
      last_indexed-append s (reverse (y ∷ ys)) x e
      ∙ ap (λ n. n + 1)
          (last_indexed-last s y ys (λ i r d. later i r (h (suc i) r d))
            (λ i r d f. l (suc i) r d (ap suc f)))
      ∙ omega arith)
  where
    first :
        ((is_unindexed (qindex_of s x) ≡ false) ⊎ (1 ≡ length (x ∷ y ∷ ys)))
        → is_unindexed (qindex_of s x) ≡ false
    first (inl d) = d
    first (inr d) = absurd (omega arith)

    later :
        (i r : ℕ)
        → ((is_unindexed (qindex_of s r) ≡ false) ⊎ (suc (suc i) ≡ length (x ∷ y ∷ ys)))
        → (is_unindexed (qindex_of s r) ≡ false) ⊎ (suc i ≡ length (y ∷ ys))
    later i r (inl d) = inl d
    later i r (inr d) = inr (omega arith)

-- So the torrent stays where it is.
pub assign_position-Keeps :
    (r i : ℕ) (s : Session)
    → ButLast s s.torrent_queue
    → get_elem? s.torrent_queue i ≡ some r
    → Returns (Keeps s) (assign_position r i s)
unfolding assign_position set_qindex
assign_position-Keeps r i s h e = elim (Bool-cases (is_unindexed (qindex_of s r))) [
  | inr d ↦ rw (d, assign_position) (returns Keeps-refl)
  | inl d ↦
      let at : (last_indexed s (reverse s.torrent_queue)).0 ≡ i = place d s.torrent_queue h e in
      let stays : (not (i == length s.torrent_queue) && not (i == i)) ≡ false = ground arith in
      rw (d, assign_position, at, stays) (returns (modify_config-Keeps r _ s))
]
  where
    end :
        (ys : List ℕ)
        → is_unindexed (qindex_of s r) ≡ true
        → ((is_unindexed (qindex_of s r) ≡ false) ⊎ (suc i ≡ suc (length ys)))
        → length ys ≡ i
    end ys d (inl f) = absurd (ground (arith, d, f))
    end ys d (inr f) = omega (arith, f)

    alone :
        (p : ℕ)
        → some p ≡ some r
        → is_unindexed (qindex_of s r) ≡ true
        → is_unindexed (qindex_of s p) ≡ true
    alone p z d =
        let same : p ≡ r = ground (arith, z) in ap (λ q. is_unindexed (qindex_of s q)) same ∙ d

    place :
        is_unindexed (qindex_of s r) ≡ true
        → (q : List ℕ) → ButLast s q
        → get_elem? q i ≡ some r
        → (last_indexed s (reverse q)).0 ≡ i
    place d [] b x = absurd (ground (arith, x))
    place d (y ∷ ys) b x =
        let last : length ys ≡ i = end ys d (b i r x) in
        last_indexed-last s y ys b
          (λ j p z f. alone p (sym z ∙ ap (get_elem? (y ∷ ys)) (omega (arith, f, last)) ∙ x) d)
        ∙ last
