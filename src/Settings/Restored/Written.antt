-- ===== src/Settings/Restored/Written.antt =====
-- Reading back what was written: where the last write of a name left the text of a value, a read
-- gives the value.
use bitswash.Prelude.{
  ℕ, ℤ, pos, ◌%◌, String, List, Option, none, some, Bool, ◌≡◌, ◌∙◌, ap, arith, ◌==◌, if◌then◌else◌,
}
use bitswash.Wx.{
  Chars, Entry, stored, wrote, seen, FitsLong, IsDigits, IsDigits-IsPlain, WxText, IsText,
  FileConfig, IsFileConfig,
}
use bitswash.Settings.Reading.{
  Reader, as_int32, IsInt, IsUint, IsUint8, read_text, read_long, read_int, read_uint, read_uint8,
  read_real, read_bool, two_uploads, int32, uint32, int32_lem, uint32-as_int32,
}

pub IsInt-FitsLong : (z : ℤ) → IsInt z → FitsLong z
IsInt-FitsLong z fits = (omega (arith, fits.0), omega (arith, fits.1))

as_int32-FitsLong : (n : ℕ) → IsUint n → FitsLong (as_int32 n)
unfolding as_int32
as_int32-FitsLong n h = ground arith

-- A file that `read` shows, after a series of writes into one that `old` shows.
pub record Written (w : WxText) (f : FileConfig) (old : Reader) (es : List Entry) (read : Reader)
    : Type 0 where
  pub text : IsText w
  pub file : IsFileConfig f
  pub wrote_lem : (k : String) → read k ≡ wrote (seen f (stored k es)) (old k)

module _ {w : WxText} {f : FileConfig} {old : Reader} {es : List Entry} {read : Reader}
    (h : Written w f old es read) (k : String) where
  at_key : {t : Chars} → stored k es ≡ some t → read k ≡ some (f.expand t)
  at_key e = h.wrote_lem k ∙ ap (λ (o : Option Chars). wrote (seen f o) (old k)) e

  -- A number is read from the text that was written.
  at_digits : {t : Chars} → IsDigits t → stored k es ≡ some t → read k ≡ some t
  at_digits {t} d e = at_key e ∙ ap some (h.file.expand_plain t (IsDigits-IsPlain t d))

  pub text_field : (d t : Chars) → stored k es ≡ some t → read_text read k d ≡ f.expand t
  unfolding read_text
  text_field d t e = ground (arith, at_key e)

  pub long_field :
      (d z : ℤ) → FitsLong z → stored k es ≡ some (w.print z) → read_long w read k d ≡ z
  unfolding read_long
  long_field d z fits e =
      ground (arith, at_digits (h.text.print-IsDigits z) e, h.text.to_long-print z fits)

  pub int_field : (d z : ℤ) → IsInt z → stored k es ≡ some (w.print z) → read_int w read k d ≡ z
  unfolding read_int
  int_field d z fits e = ap int32 (long_field d z (IsInt-FitsLong z fits) e) ∙ int32_lem z fits

  pub uint_field :
      (d : ℤ) (n : ℕ)
      → IsUint n
      → stored k es ≡ some (w.print (as_int32 n))
      → read_uint w read k d ≡ n
  unfolding read_uint
  uint_field d n fits e =
      ap uint32 (long_field d _ (as_int32-FitsLong n fits) e) ∙ uint32-as_int32 n fits

  pub long_uint_field :
      (d : ℤ) (n : ℕ) → IsUint n → stored k es ≡ some (w.print (pos n)) → read_uint w read k d ≡ n
  unfolding read_uint uint32
  long_uint_field d n fits e = ap uint32 (long_field d _ (omega arith, omega arith) e) ∙ omega arith

  pub uint8_field :
      (d : ℤ) (n : ℕ) → IsUint8 n → stored k es ≡ some (w.print (pos n)) → read_uint8 w read k d ≡ n
  unfolding read_uint8 uint32
  uint8_field d n fits e =
      ap (λ (z : ℤ). uint32 z % 256) (long_field d _ (omega arith, omega arith) e) ∙ omega arith

  pub uploads_field :
      (d z : ℤ)
      → IsInt z
      → stored k es ≡ some (w.print (two_uploads z))
      → two_uploads (read_int w read k d) ≡ two_uploads z
  unfolding two_uploads
  uploads_field d z fits e =
      ground (arith, int_field d (two_uploads z) (unfold two_uploads in ground arith) e)

  pub bool_field : (d b : Bool) → stored k es ≡ some (f.print_bool b) → read_bool f read k d ≡ b
  unfolding read_bool
  bool_field d b e =
      ground (arith, at_digits (h.file.print_bool-IsDigits b) e, h.file.to_bool-print b)

  pub real_field :
      (d x : w.Real)
      → stored k es ≡ some (w.print_real x)
      → read_real w read k d
        ≡ elim (w.to_double (f.expand (w.print_real x))) [ none ↦ d | some y ↦ y ]
  unfolding read_real
  real_field d x e = ground (arith, at_key e)

  -- A name that was not written has what it had.
  pub old_bool : (d : Bool) → stored k es ≡ none → read_bool f read k d ≡ read_bool f old k d
  unfolding read_bool
  old_bool d e =
      ground (arith, h.wrote_lem k ∙ ap (λ (o : Option Chars). wrote (seen f o) (old k)) e)

  pub old_text : (d : Chars) → stored k es ≡ none → read_text read k d ≡ read_text old k d
  unfolding read_text
  old_text d e =
      ground (arith, h.wrote_lem k ∙ ap (λ (o : Option Chars). wrote (seen f o) (old k)) e)

-- A choice by a number that is read.
pub if_both :
    {m n : ℕ} (k : ℕ) {s t : Chars} (u : Chars)
    → m ≡ n
    → s ≡ t
    → (if m == k then s else u) ≡ (if n == k then t else u)
if_both k u p q = λ i. if p i == k then q i else u
