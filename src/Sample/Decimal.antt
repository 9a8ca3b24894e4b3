-- ===== src/Sample/Decimal.antt =====
-- Decimals, printed and read.
use bitswash.Prelude.{
  ℕ, zero, suc, ◌+◌, ◌-◌, ◌*◌, ◌/◌, ◌%◌, ◌≤◌, ℤ, pos, negsuc, [], ◌∷◌, ◌++◌, Option, none, some,
  ltb, ◌||◌, ◌==◌, if◌then◌else◌, ◌>>=◌, ◌≡◌, ◌≢◌, refl, ap, ◌∙◌, inl, inr, Bool-cases, arith,
}
use mathlib.Core.List.{cons-ne-nil, concat-ne-nil}
use bitswash.Wx.{Chars, All, IsDigits}

digits : ℕ → ℕ → Chars
digits zero n = (b'0' + n) ∷ []
digits (suc fuel) n =
    let rest = digits fuel (n / 10) ++ (b'0' + n % 10) ∷ [] in
    if ltb n 10 then (b'0' + n) ∷ [] else rest

unfoldable pub print : ℤ → Chars
unfolding digits
print (pos n) = digits n n
print (negsuc n) = b'-' ∷ digits (suc n) (suc n)

scan : ℕ → Chars → Option ℕ
scan n [] = some n
scan n (c ∷ cs) =
    let rest = scan (n * 10 + (c - b'0')) cs in if ltb c b'0' || ltb b'9' c then none else rest

negated : ℕ → ℤ
negated zero = pos 0
negated (suc n) = negsuc n

unfoldable pub to_nat : Chars → Option ℕ
unfolding scan
to_nat [] = none
to_nat (c ∷ cs) = scan 0 (c ∷ cs)

unfoldable pub to_int : Chars → Option ℤ
unfolding negated
to_int [] = none
to_int (c ∷ cs) =
    if c == b'-'
    then to_nat cs >>= (λ n. some (negated n))
    else to_nat (c ∷ cs) >>= (λ n. some (pos n))

unfoldable pub to_int_or_zero : Chars → ℤ
to_int_or_zero t = elim (to_int t) [ none ↦ pos 0 | some z ↦ z ]

scan-append : (n : ℕ) (xs ys : Chars) → scan n (xs ++ ys) ≡ (scan n xs >>= λ m. scan m ys)
unfolding scan
scan-append n [] ys = refl
scan-append n (x ∷ xs) ys = ground (arith, scan-append (n * 10 + (x - b'0')) xs ys)

scan-digits : (fuel n : ℕ) → n ≤ fuel → scan 0 (digits fuel n) ≡ some n
unfolding scan digits
scan-digits zero n h = ground arith
scan-digits (suc fuel) n h =
    ground (
      arith,
      scan-digits fuel (n / 10),
      scan-append 0 (digits fuel (n / 10)) ((b'0' + n % 10) ∷ []),
    )

IsDigits-append : (xs ys : Chars) → IsDigits xs → IsDigits ys → IsDigits (xs ++ ys)
IsDigits-append [] ys h k = k
IsDigits-append (x ∷ xs) ys (h, hs) k = (h, IsDigits-append xs ys hs k)

-- Any digits but a sign.
abbrev Plain : Chars → Type 0
Plain = All (λ c. (b'0' ≤ c) × (c ≤ b'9'))

Plain-append : (xs ys : Chars) → Plain xs → Plain ys → Plain (xs ++ ys)
Plain-append [] ys h k = k
Plain-append (x ∷ xs) ys (h, hs) k = (h, Plain-append xs ys hs k)

digits-Plain : (fuel n : ℕ) → n ≤ fuel → Plain (digits fuel n)
unfolding digits
digits-Plain zero n h = (omega arith, tt)
digits-Plain (suc fuel) n h = elim (Bool-cases (ltb n 10)) [
  | inl e ↦ rw e (ground arith)
  | inr e ↦ rw e (Plain-append _ _ (digits-Plain fuel (n / 10) (omega arith)) (omega arith, tt))
]

IsDigits-of_Plain : (xs : Chars) → Plain xs → IsDigits xs
IsDigits-of_Plain [] h = tt
IsDigits-of_Plain (x ∷ xs) (h, hs) = (inr h, IsDigits-of_Plain xs hs)

pub print-IsDigits : (z : ℤ) → IsDigits (print z)
unfolding print
print-IsDigits (pos n) = IsDigits-of_Plain _ (digits-Plain n n (omega arith))
print-IsDigits (negsuc n) =
    (inl refl, IsDigits-of_Plain _ (digits-Plain (suc n) (suc n) (omega arith)))

digits-ne-nil : (fuel n : ℕ) → digits fuel n ≢ []
unfolding digits
digits-ne-nil zero n = cons-ne-nil _ _
digits-ne-nil (suc fuel) n = ground (arith, concat-ne-nil (b'0' + n % 10) (digits fuel (n / 10)))

pub print-ne-nil : (z : ℤ) → print z ≢ []
unfolding print
print-ne-nil (pos n) = digits-ne-nil n n
print-ne-nil (negsuc n) = cons-ne-nil _ _

to_nat-scan : (xs : Chars) → xs ≢ [] → to_nat xs ≡ scan 0 xs
unfolding to_nat
to_nat-scan [] h = absurd (h refl)
to_nat-scan (x ∷ xs) h = refl

to_nat-digits : (n : ℕ) → to_nat (digits n n) ≡ some n
to_nat-digits n = to_nat-scan _ (digits-ne-nil n n) ∙ scan-digits n n (omega arith)

to_int_of_Plain : (xs : Chars) → Plain xs → xs ≢ [] → to_int xs ≡ (to_nat xs >>= λ n. some (pos n))
unfolding to_int
to_int_of_Plain [] h k = absurd (k refl)
to_int_of_Plain (x ∷ xs) (h, hs) k = ground arith

pub to_nat-print : (n : ℕ) → to_nat (print (pos n)) ≡ some n
unfolding print
to_nat-print n = to_nat-digits n

pub to_int-print : (z : ℤ) → to_int (print z) ≡ some z
unfolding print
to_int-print (pos n) =
    to_int_of_Plain _ (digits-Plain n n (omega arith)) (digits-ne-nil n n)
    ∙ ap (λ (o : Option ℕ). o >>= λ m. some (pos m)) (to_nat-digits n)
to_int-print (negsuc n) =
    unfold to_int in ap (λ (o : Option ℕ). o >>= λ m. some (negated m)) (to_nat-digits (suc n))

pub to_int_or_zero-print : (z : ℤ) → to_int_or_zero (print z) ≡ z
unfolding to_int_or_zero
to_int_or_zero-print z =
    ap (λ (o : Option ℤ). elim o [ none ↦ pos 0 | some y ↦ y ]) (to_int-print z)
