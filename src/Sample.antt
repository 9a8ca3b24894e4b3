-- ===== src/Sample.antt =====
-- Concrete texts and files for the tests: operations that have the laws asked of wxWidgets.
mod Decimal
mod Cutting
use bitswash.Prelude.{
  ℕ, ◌+◌, ◌*◌, ◌/◌, ◌%◌, ◌^◌, ◌<◌, ℤ, pos, List, [], ◌∷◌, ◌++◌, Option, none, some, Bool, true,
  false, str_eq, if◌then◌else◌, String, ◌≡◌, refl, inl, ap, sym, ◌∙◌, arith, ltb, ◌==◌, ◌&&◌,
}
use Decimal.{
  print, to_int, to_nat, to_int_or_zero, print-IsDigits, print-ne-nil, to_int-print, to_nat-print,
  to_int_or_zero-print,
}
use Cutting.{
  before_first, after_first, before_last, tokens, before_first_sep, before_first_none,
  after_first_sep, before_last_sep, before_last_none, tokens_one, tokens_end, tokens_sep, fields,
  fields_sep,
}
use bitswash.Wx.{
  codes, dollar, IsPlain, FitsInt, comma, Lacks, Lacks-append, IsDigits-Lacks, Chars, WxText,
  IsText, FileConfig, IsFileConfig,
}
use bitswash.Settings.Recent.{IsSame}
use bitswash.Settings.Reading.{uint32, as_int32, uint32-as_int32}

-- A letter without its case.
lower_case : ℕ → ℕ
lower_case c = if ltb 64 c && ltb c 91 then c + 32 else c

unfoldable pub same_letters : Chars → Chars → Bool
unfolding lower_case
same_letters [] [] = true
same_letters (a ∷ cs) (b ∷ bs) = lower_case a == lower_case b && same_letters cs bs
same_letters _ _ = false

pub same_letters-IsSame : IsSame same_letters
unfolding same_letters
same_letters-IsSame = record { same_refl = own; same_sym = both_ways; same_trans = through }
  where
    own : (a : Chars) → same_letters a a ≡ true
    own [] = refl
    own (a ∷ cs) = ground (arith, own cs)

    both_ways : (a b : Chars) → same_letters a b ≡ same_letters b a
    both_ways [] [] = refl
    both_ways [] (b ∷ bs) = refl
    both_ways (a ∷ cs) [] = refl
    both_ways (a ∷ cs) (b ∷ bs) = ground (arith, both_ways cs bs)

    through : (a b c : Chars) → same_letters a b ≡ true → same_letters b c ≡ same_letters a c
    through [] [] c h = refl
    through [] (b ∷ bs) c h = cc
    through (a ∷ cs) [] c h = cc
    through (a ∷ cs) (b ∷ bs) [] h = refl
    through (a ∷ cs) (b ∷ bs) (c ∷ ds) h = ground (arith, through cs bs ds)

pub directory : Chars → Chars
directory [] = b'/' ∷ []
directory (c ∷ []) = if c == b'/' then c ∷ [] else c ∷ b'/' ∷ []
directory (c ∷ d ∷ ds) = c ∷ directory (d ∷ ds)

-- Numbers with two decimals, as hundredths, with `point` before these.
abbrev format_hundredths : ℕ → ℕ → Chars
format_hundredths point n = print (pos (n / 100)) ++ point ∷ print (pos (n % 100))

abbrev pub sample : ℕ → WxText
sample point = record {
  Real = ℕ;
  three = 300;
  print = print;
  to_long = to_int;
  to_ulonglong = to_nat;
  atoi = to_int_or_zero;
  print_real = λ n. print (pos n);
  to_double = to_nat;
  format_real = format_hundredths point;
  before_first = before_first;
  after_first = after_first;
  before_last = before_last;
  tokens = tokens;
  fields = fields;
  high = λ n. as_int32 (n / 2 ^ 32);
  low = λ n. n % 2 ^ 32;
  join = λ hi lo. uint32 hi * 2 ^ 32 + uint32 lo;
  with_sep = directory;
}

halves :
    (n : ℕ) → n < 2 ^ 64 → uint32 (as_int32 (n / 2 ^ 32)) * 2 ^ 32 + uint32 (pos (n % 2 ^ 32)) ≡ n
unfolding uint32
halves n h =
    ap (λ (m : ℕ). m * 2 ^ 32 + n % 2 ^ 32 % 2 ^ 32) (uint32-as_int32 (n / 2 ^ 32) (omega arith))
    ∙ omega arith

high_fits : (n : ℕ) → n < 2 ^ 64 → FitsInt (as_int32 (n / 2 ^ 32))
unfolding as_int32
high_fits n h = ground arith

pub sample-IsText : (point : ℕ) → IsText (sample point)
unfolding tokens fields uint32
sample-IsText point = record {
  print-IsDigits = print-IsDigits;
  print-ne-nil = print-ne-nil;
  to_long-print = λ z fits. to_int-print z;
  to_ulonglong-print = λ n fits. to_nat-print n;
  atoi-print = λ z fits. to_int_or_zero-print z;
  high_fits = high_fits;
  low_fits = λ n fits. omega arith;
  join_parts = halves;
  join_zero = refl;
  before_first_sep = before_first_sep;
  before_first_none = before_first_none;
  after_first_sep = after_first_sep;
  before_last_sep = before_last_sep;
  before_last_none = before_last_none;
  tokens-nil = λ c. refl;
  tokens_one = tokens_one;
  tokens_end = tokens_end;
  tokens_sep = tokens_sep;
  fields_end = λ c xs h. fields_sep c xs [] h;
  fields_sep = λ c xs ys h n. fields_sep c xs ys h;
}

-- Each dollar sign becomes a path.
unfoldable pub expand_dollars : Chars → Chars
expand_dollars [] = []
expand_dollars (c ∷ cs) =
    let rest = expand_dollars cs in if c == dollar then codes "/home" ++ rest else c ∷ rest

expand_dollars-eq : (t : Chars) → IsPlain t → expand_dollars t ≡ t
unfolding expand_dollars
expand_dollars-eq [] h = refl
expand_dollars-eq (c ∷ cs) ((d, ds), (b, bs)) = ground (arith, expand_dollars-eq cs (ds, bs))

abbrev pub sample_file : FileConfig
sample_file = record {
  Cfg = String → Option Chars;
  entry = λ c k. c k;
  expand = expand_dollars;
  write = λ c k v j. if str_eq k j then some (expand_dollars v) else c j;
  print_bool = λ b. if b then b'1' ∷ [] else b'0' ∷ [];
  to_bool = λ t. elim t [ [] ↦ none | c ∷ cs ↦ some (c == b'1') ];
  reopen = λ c. c;
}

pub sample_file-IsFileConfig : IsFileConfig sample_file
sample_file-IsFileConfig = record {
  entry-write = λ c k v j. refl;
  expand_plain = expand_dollars-eq;
  print_bool-IsDigits = λ b. ground arith;
  to_bool-print = λ b. ground arith;
  entry-reopen = λ c k. refl;
}

print-Lacks : (n : ℕ) → Lacks comma (print (pos n))
print-Lacks n = IsDigits-Lacks comma _ (omega arith) (inl (omega arith)) (print-IsDigits (pos n))

-- With a decimal point, a number has no comma.
pub format_real-Lacks : (n : ℕ) → Lacks comma ((sample b'.').format_real n)
format_real-Lacks n =
    Lacks-append comma (print (pos (n / 100))) _ (print-Lacks (n / 100))
      (omega arith, print-Lacks (n % 100))

-- With a decimal comma, a number has one.
pub format_real_comma :
    (n : ℕ)
    → (whole : Chars) × (decimals : Chars) × ((sample comma).format_real n
        ≡ whole ++ comma ∷ decimals)
      × Lacks comma whole
      × Lacks comma decimals
format_real_comma n = (
  print (pos (n / 100)),
  print (pos (n % 100)),
  refl,
  print-Lacks (n / 100),
  print-Lacks (n % 100),
)
