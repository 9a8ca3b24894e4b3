-- ===== src/Settings/Recent.antt =====
-- A history of paths holds at most ten, no two of them the same but for their case, the most
-- recent one last.
use bitswash.Prelude.{
  ℕ, ◌+◌, ◌≤◌, List, [], ◌∷◌, ◌++◌, Option, Bool, true, false, leb, length, erase_at, if◌then◌else◌,
  ◌≡◌, refl, sym, subst, zero, suc, ◌-◌, arith, Bool-cases, inl, inr, length-append, append_assoc,
  append-nil, ◌∙◌, ap, drop,
}
use bitswash.Wx.{Chars, All}
use bitswash.Settings.Histories.{
  History, max_paths, erase_same, add_path, read_lines, read_history, write_history,
}

-- `CmpNoCase` tells whether two texts are equal up to their case.
pub record IsSame (same : Chars → Chars → Bool) : Type 0 where
  pub same_refl : (a : Chars) → same a a ≡ true
  pub same_sym : (a b : Chars) → same a b ≡ same b a
  pub same_trans : (a b c : Chars) → same a b ≡ true → same b c ≡ same a c

module _ (same : Chars → Chars → Bool) where
  abbrev pub Misses : Chars → History → Type 0
  Misses path = All (λ (p : Chars). same p path ≡ false)

  -- No path of the history is the same as a later one.
  abbrev pub Distinct : History → Type 0
  Distinct [] = Unit {0}
  Distinct (p ∷ ps) = All (λ (q : Chars). same q p ≡ false) ps × Distinct ps

  -- The specification: all paths but the one, the oldest of ten dropped, and the path at the end.
  unfoldable pub others : Chars → History → History
  others path [] = []
  others path (p ∷ ps) = let rest = others path ps in if same p path then rest else p ∷ rest

  others-Misses : (path : Chars) (ps : History) → Misses path ps → others path ps ≡ ps
  unfolding others
  others-Misses path [] h = refl
  others-Misses path (p ∷ ps) (h, hs) = ground (arith, others-Misses path ps hs)

  Misses-others : (path : Chars) (ps : History) → Misses path (others path ps)
  unfolding others
  Misses-others path [] = tt
  Misses-others path (p ∷ ps) = elim (Bool-cases (same p path)) [
    | inl e ↦ rw e (Misses-others path ps)
    | inr e ↦ rw e (e, Misses-others path ps)
  ]

  All-others :
      (P : Chars → Type 0) (path : Chars) (ps : History) → All P ps → All P (others path ps)
  unfolding others
  All-others P path [] h = tt
  All-others P path (p ∷ ps) (h, hs) = elim (Bool-cases (same p path)) [
    | inl e ↦ rw e (All-others P path ps hs)
    | inr e ↦ rw e (h, All-others P path ps hs)
  ]

  Distinct-others : (path : Chars) (ps : History) → Distinct ps → Distinct (others path ps)
  unfolding others
  Distinct-others path [] h = tt
  Distinct-others path (p ∷ ps) (h, hs) = elim (Bool-cases (same p path)) [
    | inl e ↦ rw e (Distinct-others path ps hs)
    | inr e ↦
        rw e (All-others (λ (q : Chars). same q p ≡ false) path ps h, Distinct-others path ps hs)
  ]

  miss :
      IsSame same → (p path q : Chars) → same p path ≡ true → same q p ≡ false → same q path ≡ false
  miss laws p path q e m =
      laws.same_sym q path
      ∙ sym (laws.same_trans path p q (laws.same_sym path p ∙ e))
      ∙ laws.same_sym p q
      ∙ m

  misses :
      IsSame same
      → (p path : Chars) (qs : History) → same p path ≡ true
      → All (λ (q : Chars). same q p ≡ false) qs
      → Misses path qs
  misses laws p path [] e m = tt
  misses laws p path (q ∷ qs) e (m, ms) = (miss laws p path q e m, misses laws p path qs e ms)

  -- Where no two paths are the same, erasing the first match erases them all.
  erase_same-eq-others :
      IsSame same
      → (path : Chars) (ps : History) → Distinct ps
      → erase_same same path ps ≡ others path ps
  unfolding erase_same others
  erase_same-eq-others laws path [] d = refl
  erase_same-eq-others laws path (p ∷ ps) (h, d) = elim (Bool-cases (same p path)) [
    | inl e ↦ rw e (sym (others-Misses path ps (misses laws p path ps e h)))
    | inr e ↦ rw e (ap (λ (qs : History). p ∷ qs) (erase_same-eq-others laws path ps d))
  ]

  All-snoc :
      (P : Chars → Type 0) (path : Chars) (ps : History)
      → All P ps
      → P path
      → All P (ps ++ path ∷ [])
  All-snoc P path [] h p = (p, tt)
  All-snoc P path (q ∷ qs) (h, hs) p = (h, All-snoc P path qs hs p)

  Distinct-snoc :
      IsSame same
      → (path : Chars) (ps : History) → Distinct ps
      → Misses path ps
      → Distinct (ps ++ path ∷ [])
  Distinct-snoc laws path [] d m = (tt, tt)
  Distinct-snoc laws path (p ∷ ps) (h, d) (m, ms) = (
    All-snoc (λ (q : Chars). same q p ≡ false) path ps h (laws.same_sym path p ∙ m),
    Distinct-snoc laws path ps d ms,
  )

  pub record IsHistory (hs : History) : Type 0 where
    pub at_most : length hs ≤ max_paths
    pub distinct : Distinct hs

  -- The most recent nine of the other paths, and the path.
  unfoldable pub recent : Chars → History → History
  recent path hs = let ps = others path hs in drop (length ps - 9) ps ++ path ∷ []

  length-others : (path : Chars) (ps : History) → length (others path ps) ≤ length ps
  unfolding others
  length-others path [] = omega arith
  length-others path (p ∷ ps) = ground (arith, length-others path ps)

  -- A history without its oldest paths.
  All-drop : (P : Chars → Type 0) (n : ℕ) (ps : History) → All P ps → All P (drop n ps)
  All-drop P zero ps h = h
  All-drop P (suc n) [] h = tt
  All-drop P (suc n) (p ∷ ps) (h, hs) = All-drop P n ps hs

  Distinct-drop : (n : ℕ) (ps : History) → Distinct ps → Distinct (drop n ps)
  Distinct-drop zero ps d = d
  Distinct-drop (suc n) [] d = tt
  Distinct-drop (suc n) (p ∷ ps) (h, d) = Distinct-drop n ps d

  length-drop : (n : ℕ) (ps : History) → length (drop n ps) ≡ length ps - n
  length-drop zero ps = omega arith
  length-drop (suc n) [] = omega arith
  length-drop (suc n) (p ∷ ps) = omega (arith, length-drop n ps)

  -- One of at most ten is dropped where there are ten, and none else.
  erase_oldest :
      (ps : History)
      → length ps ≤ 10
      → (if leb max_paths (length ps) then erase_at ps 0 else ps) ≡ drop (length ps - 9) ps
  erase_oldest [] h = refl
  erase_oldest (p ∷ ps) h = elim (Bool-cases (leb max_paths (length (p ∷ ps)))) [
    | inl e ↦ let one : length (p ∷ ps) - 9 ≡ suc zero = ground arith in rw (e, one) refl
    | inr e ↦ let none_left : length (p ∷ ps) - 9 ≡ zero = ground arith in rw (e, none_left) refl
  ]

  recent-IsHistory :
      IsSame same → (path : Chars) (hs : History) → IsHistory hs → IsHistory (recent path hs)
  unfolding recent
  recent-IsHistory laws path hs h =
      let ps = others path hs in
      let few : length ps ≤ 10 = omega (arith, length-others path hs, h.at_most) in
      let qs = drop (length ps - 9) ps in
      record {
        at_most = omega (arith, length-append qs (path ∷ []), length-drop (length ps - 9) ps);
        distinct =
            Distinct-snoc laws path qs (Distinct-drop _ ps (Distinct-others path hs h.distinct))
              (All-drop (λ (q : Chars). same q path ≡ false) _ ps (Misses-others path hs));
      }

  -- If the comparison without case is an equivalence, and a history holds at most 10 paths, no
  -- two of them the same, then `AddSavePath` leaves the 9 most recent of the paths that are not
  -- the same as the new one, in their order, with the new one behind them, and that again is such
  -- a history.
  pub add_path-recent :
      IsSame same
      → (path : Chars) (hs : History) → IsHistory hs
      → (add_path same path hs ≡ recent path hs) × IsHistory (add_path same path hs)
  unfolding add_path recent
  add_path-recent laws path hs h =
      let ps = others path hs in
      let few : length ps ≤ 10 = omega (arith, length-others path hs, h.at_most) in
      let same_as : add_path same path hs ≡ recent path hs =
        rw (erase_same-eq-others laws path hs h.distinct)
          (ap (λ (qs : History). qs ++ path ∷ []) (erase_oldest ps few)) in
      (same_as, subst IsHistory (sym same_as) (recent-IsHistory laws path hs h))

-- A history that is full is not read on.
read_lines-append :
    (ls hs : History) → length hs + length ls ≤ max_paths → read_lines ls hs ≡ hs ++ ls
unfolding read_lines
read_lines-append [] hs h = sym (append-nil hs)
read_lines-append (l ∷ []) hs h = ground arith
read_lines-append (l ∷ m ∷ ls) hs h =
    let not_full : leb max_paths (length (hs ++ l ∷ [])) ≡ false =
      ground (arith, length-append hs (l ∷ [])) in
    rw not_full (
      read_lines-append (m ∷ ls) (hs ++ l ∷ []) (omega (arith, length-append hs (l ∷ [])))
      ∙ append_assoc hs (l ∷ []) (m ∷ ls))

pub read_history-write_history :
    (hs : History) (file : Option (List Chars))
    → length hs ≤ max_paths
    → read_history (write_history true true hs file) [] ≡ hs
unfolding read_history write_history
read_history-write_history hs file h = read_lines-append hs [] (omega arith)
