-- ===== src/Columns/Texts.antt =====
-- Texts that a column's entry is put together of (src/swashlistctrl.cpp).
use bitswash.Prelude.{
  ℕ, [], ◌∷◌, ◌++◌, Bool, true, false, ◌≡◌, ◌≢◌, refl, arith, Bool-cases, inl, inr,
}
use mathlib.Core.List.{cons-ne-nil}
use bitswash.Wx.{Chars, Lacks, bar, colon, codes}
use bitswash.Columns.{same_text, choice_text}

pub same_text_refl : (a : Chars) → same_text a a ≡ true
unfolding same_text
same_text_refl [] = refl
same_text_refl (x ∷ xs) = ground (arith, same_text_refl xs)

same_text-eq : (a b : Chars) → same_text a b ≡ true → a ≡ b
unfolding same_text
same_text-eq [] [] h = refl
same_text-eq [] (y ∷ ys) h = absurd (ground (arith, h))
same_text-eq (x ∷ xs) [] h = absurd (ground (arith, h))
same_text-eq (x ∷ xs) (y ∷ ys) h =
    let e : x ≡ y = ground (arith, h) in
    let es : xs ≡ ys = same_text-eq xs ys (ground (arith, h)) in λ i. e i ∷ es i

pub same_text-false : (a b : Chars) → a ≢ b → same_text a b ≡ false
same_text-false a b n = elim (Bool-cases (same_text a b)) [
  | inl e ↦ absurd (n (same_text-eq a b e))
  | inr e ↦ e
]

pub append_cons-ne-nil : (xs ys : Chars) (y : ℕ) → xs ++ y ∷ ys ≢ []
append_cons-ne-nil [] ys y = cons-ne-nil y ys
append_cons-ne-nil (x ∷ xs) ys y = cons-ne-nil x (xs ++ y ∷ ys)

pub choice_text-Lacks : (b : Bool) → Lacks colon (choice_text b) × Lacks bar (choice_text b)
choice_text-Lacks true = ground arith
choice_text-Lacks false = ground arith

pub choice_text-same : (b : Bool) → same_text (choice_text b) (codes "true") ≡ b
unfolding same_text
choice_text-same true = refl
choice_text-same false = refl
