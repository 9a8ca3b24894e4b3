-- ===== src/Wx/Joined.antt =====
-- Texts put together with a separator, and taken apart by `wxStringTokenizer`.
use bitswash.Prelude.{
  subst, ℕ, ◌≤◌, ◌<◌, List, [], ◌∷◌, ◌++◌, ◌≡◌, ◌≢◌, ◌⊎◌, inl, inr, refl, sym, ap, ◌∙◌,
  append_assoc, arith,
}
use mathlib.Core.List.{cons-ne-nil}
use bitswash.Wx.Text.{Chars, All, Lacks, IsDigits, IsPlain, dollar, backslash, WxText, IsText}

-- Each text with the separator behind it.
unfoldable pub terminated : ℕ → List Chars → Chars
terminated c [] = []
terminated c (x ∷ xs) = x ++ c ∷ terminated c xs

-- The texts with the separator between them.
separated : ℕ → List Chars → Chars
separated c [] = []
separated c (x ∷ []) = x
separated c (x ∷ y ∷ ys) = x ++ c ∷ separated c (y ∷ ys)

abbrev pub Nonempty : List Chars → Type 0
Nonempty = All (λ (x : Chars). x ≢ [])

terminated-separated :
    (c : ℕ) (x : Chars) (xs : List Chars) → terminated c (x ∷ xs) ≡ separated c (x ∷ xs) ++ c ∷ []
unfolding terminated separated
terminated-separated c x [] = refl
terminated-separated c x (y ∷ ys) =
    ap (λ (r : Chars). x ++ c ∷ r) (terminated-separated c y ys)
    ∙ sym (append_assoc x (c ∷ separated c (y ∷ ys)) (c ∷ []))

append-ne-nil : (xs ys : Chars) → xs ≢ [] → xs ++ ys ≢ []
append-ne-nil [] ys h = absurd (h refl)
append-ne-nil (x ∷ xs) ys h = cons-ne-nil x (xs ++ ys)

separated-ne-nil : (c : ℕ) (x : Chars) (xs : List Chars) → x ≢ [] → separated c (x ∷ xs) ≢ []
unfolding separated
separated-ne-nil c x [] h = h
separated-ne-nil c x (y ∷ ys) h = append-ne-nil x (c ∷ separated c (y ∷ ys)) h

pub IsDigits-Lacks :
    (c : ℕ) (xs : Chars) → c ≢ b'-' → (c < b'0') ⊎ (b'9' < c) → IsDigits xs → Lacks c xs
IsDigits-Lacks c [] n h d = tt
IsDigits-Lacks c (x ∷ xs) n h (d, ds) = (one d, IsDigits-Lacks c xs n h ds)
  where
    outside : (c < b'0') ⊎ (b'9' < c) → (b'0' ≤ x) × (x ≤ b'9') → x ≡ c → ⊥
    outside (inl l) b q = omega arith
    outside (inr l) b q = omega arith

    one : (x ≡ b'-') ⊎ ((b'0' ≤ x) × (x ≤ b'9')) → x ≢ c
    one (inl e) q = n (sym q ∙ e)
    one (inr b) q = absurd (outside h b q)

pub IsDigits-IsPlain : (xs : Chars) → IsDigits xs → IsPlain xs
IsDigits-IsPlain xs d = (
  IsDigits-Lacks dollar xs (omega arith) (inl (omega arith)) d,
  IsDigits-Lacks backslash xs (omega arith) (inr (omega arith)) d,
)

pub Lacks-append : (c : ℕ) (xs ys : Chars) → Lacks c xs → Lacks c ys → Lacks c (xs ++ ys)
Lacks-append c [] ys hx hy = hy
Lacks-append c (x ∷ xs) ys (h, hx) hy = (h, Lacks-append c xs ys hx hy)

-- A text with a text in front that is not empty starts with that one's first character.
abbrev StartsWith : ℕ → Chars → Type 0
StartsWith d r = (zs : Chars) × (r ≡ d ∷ zs)

separated-StartsWith :
    (c d : ℕ) (y : Chars) (ys : List Chars) → StartsWith d (separated c ((d ∷ y) ∷ ys))
unfolding separated
separated-StartsWith c d y [] = (y, refl)
separated-StartsWith c d y (z ∷ zs) = (y ++ c ∷ separated c (z ∷ zs), refl)

module _ (w : WxText) (text : IsText w) (c : ℕ) where
  tokens-StartsWith :
      (x r : Chars) (d : ℕ)
      → Lacks c x
      → d ≢ c
      → StartsWith d r
      → w.tokens c (x ++ c ∷ r) ≡ x ∷ w.tokens c r
  tokens-StartsWith x r d l n (zs, e) =
      ap (λ (t : Chars). w.tokens c (x ++ c ∷ t)) e
      ∙ text.tokens_sep c d x zs l n
      ∙ ap (λ (t : Chars). x ∷ w.tokens c t) (sym e)

  tokens-separated :
      (x : Chars) (xs : List Chars)
      → Nonempty (x ∷ xs)
      → All (Lacks c) (x ∷ xs)
      → w.tokens c (separated c (x ∷ xs)) ≡ x ∷ xs
  unfolding separated
  tokens-separated x [] (h, _) (l, _) = text.tokens_one c x h l
  tokens-separated x ([] ∷ ys) (_, hs) l = absurd (hs.0 refl)
  tokens-separated x ((d ∷ y) ∷ ys) (h, hs) (l, ((n, m), ls)) =
      tokens-StartsWith x _ d l n (separated-StartsWith c d y ys)
      ∙ ap (λ (r : List Chars). x ∷ r) (tokens-separated (d ∷ y) ys hs ((n, m), ls))

  -- The texts, each with the separator behind it, taken apart.
  pub tokens-terminated_whole :
      (x : Chars) (xs : List Chars)
      → Nonempty (x ∷ xs)
      → All (Lacks c) (x ∷ xs)
      → w.tokens c (terminated c (x ∷ xs)) ≡ x ∷ xs
  unfolding terminated
  tokens-terminated_whole x [] (h, _) (l, _) = text.tokens_end c x h l
  tokens-terminated_whole x ([] ∷ ys) (_, hs) l = absurd (hs.0 refl)
  tokens-terminated_whole x ((d ∷ y) ∷ ys) (h, hs) (l, ((n, m), ls)) =
      tokens-StartsWith x _ d l n (y ++ c ∷ terminated c ys, refl)
      ∙ ap (λ (r : List Chars). x ∷ r) (tokens-terminated_whole (d ∷ y) ys hs ((n, m), ls))

  -- The last separator cut off, and the rest taken apart: the texts.
  pub tokens-terminated :
      (xs : List Chars)
      → Nonempty xs
      → All (Lacks c) xs
      → w.tokens c (w.before_last c (terminated c xs)) ≡ xs
  tokens-terminated [] h l =
      unfold terminated in (ap (w.tokens c) (text.before_last_none c [] tt) ∙ text.tokens-nil c)
  tokens-terminated (x ∷ xs) h l =
      ap (w.tokens c)
        (ap (w.before_last c) (terminated-separated c x xs) ∙ text.before_last_sep c _ [] tt)
      ∙ tokens-separated x xs h l

  pub before_last-terminated :
      (x : Chars) (xs : List Chars) → x ≢ [] → w.before_last c (terminated c (x ∷ xs)) ≢ []
  before_last-terminated x xs h e = separated-ne-nil c x xs h (
      sym (ap (w.before_last c) (terminated-separated c x xs) ∙ text.before_last_sep c _ [] tt) ∙ e)

  separated-Lacks : (d : ℕ) (xs : List Chars) → c ≢ d → All (Lacks d) xs → Lacks d (separated c xs)
  unfolding separated
  separated-Lacks d [] n l = tt
  separated-Lacks d (x ∷ []) n (l, ls) = l
  separated-Lacks d (x ∷ y ∷ ys) n (l, ls) =
      Lacks-append d x _ l (n, separated-Lacks d (y ∷ ys) n ls)

  before_last-Lacks :
      (d : ℕ) (xs : List Chars)
      → c ≢ d
      → All (Lacks d) xs
      → Lacks d (w.before_last c (terminated c xs))
  before_last-Lacks d [] n l =
      let none_left : w.before_last c (terminated c []) ≡ [] =
        unfold terminated in text.before_last_none c [] tt in
      subst (Lacks d) (sym none_left) tt
  before_last-Lacks d (x ∷ xs) n l =
      subst (Lacks d)
        (sym (
          ap (w.before_last c) (terminated-separated c x xs)
          ∙ text.before_last_sep c (separated c (x ∷ xs)) [] tt))
        (separated-Lacks d (x ∷ xs) n l)

  -- With a separator that marks no variable, plain texts put together are plain.
  pub before_last-IsPlain :
      (xs : List Chars)
      → c ≢ dollar
      → c ≢ backslash
      → All IsPlain xs
      → IsPlain (w.before_last c (terminated c xs))
  before_last-IsPlain xs n m l =
      (before_last-Lacks dollar xs n (firsts xs l), before_last-Lacks backslash xs m (seconds xs l))
    where
      firsts : (xs : List Chars) → All IsPlain xs → All (Lacks dollar) xs
      firsts [] l = tt
      firsts (x ∷ xs) (l, ls) = (l.0, firsts xs ls)

      seconds : (xs : List Chars) → All IsPlain xs → All (Lacks backslash) xs
      seconds [] l = tt
      seconds (x ∷ xs) (l, ls) = (l.1, seconds xs ls)
