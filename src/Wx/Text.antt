-- ===== src/Wx/Text.antt =====
-- `wxString` as the list of its characters, and the operations on it that the source uses.
use Prim.Native.Char.{code}
use bitswash.Prelude.{
  ℕ, ℤ, pos, pos_part, neg_part, String, List, [], ◌∷◌, ◌++◌, Option, some, ◌≡◌, ◌≢◌, ◌≤◌, ◌⊎◌, ◌<◌,
  ◌^◌,
}

abbrev pub Chars : Type 0
Chars = List ℕ

-- The characters of a literal.
abbrev pub codes : String → Chars
codes String.[] = []
codes (String.◌∷◌ c s) = code c ∷ codes s

module _ {ℓ κ} {A : Type ℓ} (P : A → Type κ) where
  abbrev pub All : List A → Type κ
  All [] = Unit
  All (x ∷ xs) = P x × All xs

abbrev pub Lacks : ℕ → Chars → Type 0
Lacks c = All (λ d. d ≢ c)

-- A decimal: digits, and perhaps a sign.
abbrev pub IsDigits : Chars → Type 0
IsDigits = All (λ c. (c ≡ b'-') ⊎ ((b'0' ≤ c) × (c ≤ b'9')))

abbrev pub comma : ℕ
comma = b','

abbrev pub bar : ℕ
bar = b'|'

abbrev pub colon : ℕ
colon = b':'

abbrev pub dollar : ℕ
dollar = b'$'

abbrev pub backslash : ℕ
backslash = 92

abbrev pub semicolon : ℕ
semicolon = b';'

-- The values of `int`, and of a `long` of 64 bits.
abbrev pub FitsInt : ℤ → Type 0
FitsInt z = (pos_part z < 2 ^ 31) × (neg_part z ≤ 2 ^ 31)

abbrev pub FitsLong : ℤ → Type 0
FitsLong z = (pos_part z < 2 ^ 63) × (neg_part z ≤ 2 ^ 63)

-- A text in which no name of an environment variable is marked.
abbrev pub IsPlain : Chars → Type 0
IsPlain t = Lacks dollar t × Lacks backslash t

pub record WxText : Type 1 where
  -- `double`
  pub Real : Type 0
  pub three : Real
  -- `wxString::Format("%d")`, `<<` and `ToString` of a whole number
  pub print : ℤ → Chars
  -- `ToLong`, `ToULongLong`: `none` where the text is no number
  pub to_long : Chars → Option ℤ
  pub to_ulonglong : Chars → Option ℕ
  -- `wxAtoi`
  pub atoi : Chars → ℤ
  -- `WriteDouble` and `ToDouble`, and `Format("%.02f")`
  pub print_real : Real → Chars
  pub to_double : Chars → Option Real
  pub format_real : Real → Chars
  pub before_first : ℕ → Chars → Chars
  pub after_first : ℕ → Chars → Chars
  pub before_last : ℕ → Chars → Chars
  -- `wxStringTokenizer` with one delimiter that is no blank
  pub tokens : ℕ → Chars → List Chars
  -- the same with `wxTOKEN_RET_EMPTY_ALL`
  pub fields : ℕ → Chars → List Chars
  -- `GetHi`, `GetLo` and the constructor of `wxLongLong`, between an unsigned and a signed number of
  -- 64 bits
  pub high : ℕ → ℤ
  pub low : ℕ → ℕ
  pub join : ℤ → ℤ → ℕ
  -- `wxFileName::AssignDir` and `GetPathWithSep`
  pub with_sep : Chars → Chars

pub record IsText (w : WxText) : Type 0 where
  pub print-IsDigits : (z : ℤ) → IsDigits (w.print z)
  pub print-ne-nil : (z : ℤ) → w.print z ≢ []
  pub to_long-print : (z : ℤ) → FitsLong z → w.to_long (w.print z) ≡ some z
  pub to_ulonglong-print : (n : ℕ) → n < 2 ^ 64 → w.to_ulonglong (w.print (pos n)) ≡ some n
  pub atoi-print : (z : ℤ) → FitsInt z → w.atoi (w.print z) ≡ z
  pub high_fits : (n : ℕ) → n < 2 ^ 64 → FitsInt (w.high n)
  pub low_fits : (n : ℕ) → n < 2 ^ 64 → w.low n < 2 ^ 32
  pub join_parts : (n : ℕ) → n < 2 ^ 64 → w.join (w.high n) (pos (w.low n)) ≡ n
  pub join_zero : w.join (pos 0) (pos 0) ≡ 0
  pub before_first_sep : (c : ℕ) (xs ys : Chars) → Lacks c xs → w.before_first c (xs ++ c ∷ ys) ≡ xs
  pub before_first_none : (c : ℕ) (xs : Chars) → Lacks c xs → w.before_first c xs ≡ xs
  pub after_first_sep : (c : ℕ) (xs ys : Chars) → Lacks c xs → w.after_first c (xs ++ c ∷ ys) ≡ ys
  pub before_last_sep : (c : ℕ) (xs ys : Chars) → Lacks c ys → w.before_last c (xs ++ c ∷ ys) ≡ xs
  pub before_last_none : (c : ℕ) (xs : Chars) → Lacks c xs → w.before_last c xs ≡ []
  pub tokens-nil : (c : ℕ) → w.tokens c [] ≡ []
  pub tokens_one : (c : ℕ) (xs : Chars) → xs ≢ [] → Lacks c xs → w.tokens c xs ≡ xs ∷ []
  pub tokens_end : (c : ℕ) (xs : Chars) → xs ≢ [] → Lacks c xs → w.tokens c (xs ++ c ∷ []) ≡ xs ∷ []
  pub tokens_sep :
      (c d : ℕ) (xs ys : Chars)
      → Lacks c xs
      → d ≢ c
      → w.tokens c (xs ++ c ∷ d ∷ ys) ≡ xs ∷ w.tokens c (d ∷ ys)
  pub fields_end : (c : ℕ) (xs : Chars) → Lacks c xs → w.fields c (xs ++ c ∷ []) ≡ xs ∷ [] ∷ []
  pub fields_sep :
      (c : ℕ) (xs ys : Chars)
      → Lacks c xs
      → ys ≢ []
      → w.fields c (xs ++ c ∷ ys) ≡ xs ∷ w.fields c ys
