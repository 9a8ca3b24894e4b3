-- ===== src/Wx/Entries.antt =====
-- `wxFileConfig`: entries by name, and a file that holds them.
use bitswash.Prelude.{
  String, List, [], ◌∷◌, Option, none, some, Bool, ◌≡◌, refl, arith, str_eq, if◌then◌else◌,
}
use bitswash.Wx.Text.{Chars, IsPlain, IsDigits}

pub record FileConfig : Type 1 where
  pub Cfg : Type 0
  -- what `Read` finds as a text, with the environment variables in it expanded, and `Write` of a text
  pub entry : Cfg → String → Option Chars
  -- `ExpandEnvVars`
  pub expand : Chars → Chars
  pub write : Cfg → String → Chars → Cfg
  -- `Write` and `Read` of a `bool`
  pub print_bool : Bool → Chars
  pub to_bool : Chars → Option Bool
  -- the entries that a file has after `Save` into it, as a new `wxFileConfig` reads them
  pub reopen : Cfg → Cfg

pub record IsFileConfig (f : FileConfig) : Type 0 where
  pub entry-write :
      (c : f.Cfg) (k : String) (v : Chars) (j : String)
      → f.entry (f.write c k v) j ≡ (if str_eq k j then some (f.expand v) else f.entry c j)
  -- on platforms other than Windows
  pub expand_plain : (t : Chars) → IsPlain t → f.expand t ≡ t
  pub print_bool-IsDigits : (b : Bool) → IsDigits (f.print_bool b)
  pub to_bool-print : (b : Bool) → f.to_bool (f.print_bool b) ≡ some b
  pub entry-reopen : (c : f.Cfg) (k : String) → f.entry (f.reopen c) k ≡ f.entry c k

abbrev pub Entry : Type 0
Entry = String × Chars

-- What the last write of a name in a series leaves.
abbrev pub stored : String → List Entry → Option Chars
stored k [] = none
stored k ((j, v) ∷ es) = elim (stored k es) [
  | some t ↦ some t
  | none ↦ if str_eq j k then some v else none
]

-- What is found under a name: what was written last, or else what was there.
abbrev pub wrote : Option Chars → Option Chars → Option Chars
wrote none old = old
wrote (some t) old = some t

module _ (f : FileConfig) where
  -- What was written, as it is read.
  abbrev pub seen : Option Chars → Option Chars
  seen none = none
  seen (some t) = some (f.expand t)

  -- `Write` of one entry after another.
  unfoldable pub write_all : f.Cfg → List Entry → f.Cfg
  write_all c [] = c
  write_all c ((k, v) ∷ es) = write_all (f.write c k v) es

  module _ (laws : IsFileConfig f) where
    pub entry-write_all :
        (c : f.Cfg) (es : List Entry) (k : String)
        → f.entry (write_all c es) k ≡ wrote (seen (stored k es)) (f.entry c k)
    unfolding write_all
    entry-write_all c [] k = refl
    entry-write_all c ((j, v) ∷ es) k =
        ground (arith, entry-write_all (f.write c j v) es k, laws.entry-write c j v k)
