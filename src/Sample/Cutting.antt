-- ===== src/Sample/Cutting.antt =====
-- Texts cut at a character.
use bitswash.Prelude.{
  ℕ, List, [], ◌∷◌, ◌++◌, Bool, true, false, ◌||◌, ◌==◌, if◌then◌else◌, ◌≡◌, ◌≢◌, refl, sym, ap,
  ◌∙◌, arith, append_assoc, append-nil,
}
use bitswash.Wx.{Chars, Lacks}

module _ (c : ℕ) where
  unfoldable pub before_first : Chars → Chars
  before_first [] = []
  before_first (x ∷ xs) = if x == c then [] else x ∷ before_first xs

  unfoldable pub after_first : Chars → Chars
  after_first [] = []
  after_first (x ∷ xs) = if x == c then xs else after_first xs

  contains : Chars → Bool
  contains [] = false
  contains (x ∷ xs) = x == c || contains xs

  unfoldable pub before_last : Chars → Chars
  unfolding contains
  before_last [] = []
  before_last (x ∷ xs) = if contains xs then x ∷ before_last xs else []

  -- A last text that is empty is dropped.
  cut : Chars → Chars → List Chars
  cut [] [] = []
  cut (d ∷ ds) [] = (d ∷ ds) ∷ []
  cut cur (x ∷ xs) = elim (x == c) [ true ↦ cur ∷ cut [] xs | false ↦ cut (cur ++ x ∷ []) xs ]

  unfoldable pub tokens : Chars → List Chars
  unfolding cut
  tokens xs = cut [] xs

  pub before_first_sep : (xs ys : Chars) → Lacks c xs → before_first (xs ++ c ∷ ys) ≡ xs
  unfolding before_first
  before_first_sep [] ys h = ground arith
  before_first_sep (x ∷ xs) ys (h, hs) = ground (arith, before_first_sep xs ys hs)

  pub before_first_none : (xs : Chars) → Lacks c xs → before_first xs ≡ xs
  unfolding before_first
  before_first_none [] h = refl
  before_first_none (x ∷ xs) (h, hs) = ground (arith, before_first_none xs hs)

  pub after_first_sep : (xs ys : Chars) → Lacks c xs → after_first (xs ++ c ∷ ys) ≡ ys
  unfolding after_first
  after_first_sep [] ys h = ground arith
  after_first_sep (x ∷ xs) ys (h, hs) = ground (arith, after_first_sep xs ys hs)

  contains_sep : (xs ys : Chars) → contains (xs ++ c ∷ ys) ≡ true
  unfolding contains
  contains_sep [] ys = ground arith
  contains_sep (x ∷ xs) ys = ground (arith, contains_sep xs ys)

  contains_none : (xs : Chars) → Lacks c xs → contains xs ≡ false
  unfolding contains
  contains_none [] h = refl
  contains_none (x ∷ xs) (h, hs) = ground (arith, contains_none xs hs)

  pub before_last_sep : (xs ys : Chars) → Lacks c ys → before_last (xs ++ c ∷ ys) ≡ xs
  unfolding before_last
  before_last_sep [] ys h = ground (arith, contains_none ys h)
  before_last_sep (x ∷ xs) ys h = ground (arith, before_last_sep xs ys h, contains_sep xs ys)

  pub before_last_none : (xs : Chars) → Lacks c xs → before_last xs ≡ []
  unfolding before_last
  before_last_none [] h = refl
  before_last_none (x ∷ xs) (h, hs) = ground (arith, contains_none xs hs)

  cut_step : (cur : Chars) (x : ℕ) (xs : Chars) → x ≢ c → cut cur (x ∷ xs) ≡ cut (cur ++ x ∷ []) xs
  unfolding cut
  cut_step [] x xs h = ground arith
  cut_step (d ∷ ds) x xs h = ground arith

  cut_at : (cur xs : Chars) → cut cur (c ∷ xs) ≡ cur ∷ cut [] xs
  unfolding cut
  cut_at [] xs = ground arith
  cut_at (d ∷ ds) xs = ground arith

  cut_sep : (cur xs ys : Chars) → Lacks c xs → cut cur (xs ++ c ∷ ys) ≡ (cur ++ xs) ∷ cut [] ys
  cut_sep cur [] ys h = cut_at cur ys ∙ ap (λ (t : Chars). t ∷ cut [] ys) (sym (append-nil cur))
  cut_sep cur (x ∷ xs) ys (h, hs) =
      cut_step cur x _ h
      ∙ cut_sep (cur ++ x ∷ []) xs ys hs
      ∙ ap (λ (t : Chars). t ∷ cut [] ys) (append_assoc cur (x ∷ []) xs)

  cut_end : (cur : Chars) → cur ≢ [] → cut cur [] ≡ cur ∷ []
  unfolding cut
  cut_end [] h = absurd (h refl)
  cut_end (d ∷ ds) h = refl

  cut_one : (cur xs : Chars) → cur ++ xs ≢ [] → Lacks c xs → cut cur xs ≡ (cur ++ xs) ∷ []
  cut_one cur [] n h =
      cut_end cur (λ e. n (append-nil cur ∙ e)) ∙ ap (λ (t : Chars). t ∷ []) (sym (append-nil cur))
  cut_one cur (x ∷ xs) n (h, hs) =
      cut_step cur x xs h
      ∙ cut_one (cur ++ x ∷ []) xs (λ e. n (sym (append_assoc cur (x ∷ []) xs) ∙ e)) hs
      ∙ ap (λ (t : Chars). t ∷ []) (append_assoc cur (x ∷ []) xs)

  pub tokens_one : (xs : Chars) → xs ≢ [] → Lacks c xs → tokens xs ≡ xs ∷ []
  unfolding tokens
  tokens_one xs n h = cut_one [] xs n h

  pub tokens_end : (xs : Chars) → xs ≢ [] → Lacks c xs → tokens (xs ++ c ∷ []) ≡ xs ∷ []
  unfolding tokens cut
  tokens_end xs n h = cut_sep [] xs [] h

  pub tokens_sep :
      (d : ℕ) (xs ys : Chars)
      → Lacks c xs
      → d ≢ c
      → tokens (xs ++ c ∷ d ∷ ys) ≡ xs ∷ tokens (d ∷ ys)
  unfolding tokens
  tokens_sep d xs ys h n = cut_sep [] xs (d ∷ ys) h

  -- All texts, also the last one where it is empty.
  split : Chars → Chars → List Chars
  split cur [] = cur ∷ []
  split cur (x ∷ xs) = elim (x == c) [ true ↦ cur ∷ split [] xs | false ↦ split (cur ++ x ∷ []) xs ]

  unfoldable pub fields : Chars → List Chars
  unfolding split
  fields xs = split [] xs

  split_sep :
      (cur xs ys : Chars) → Lacks c xs → split cur (xs ++ c ∷ ys) ≡ (cur ++ xs) ∷ split [] ys
  unfolding split
  split_sep cur [] ys h = ground (arith, append-nil cur)
  split_sep cur (x ∷ xs) ys (h, hs) =
      ground (arith, split_sep (cur ++ x ∷ []) xs ys hs, append_assoc cur (x ∷ []) xs)

  pub fields_sep : (xs ys : Chars) → Lacks c xs → fields (xs ++ c ∷ ys) ≡ xs ∷ fields ys
  unfolding fields
  fields_sep xs ys h = split_sep [] xs ys h
