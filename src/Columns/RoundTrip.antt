-- ===== src/Columns/RoundTrip.antt =====
-- The text for the columns of a list (src/swashlistctrl.cpp), written and read again.
use bitswash.Prelude.{
  ℤ, List, [], ◌∷◌, ◌++◌, map, true, ◌≡◌, ◌≢◌, refl, sym, ap, ◌∙◌, arith, append_assoc, append-nil,
  inr,
}
use bitswash.Wx.{
  Chars, All, Lacks, WxText, IsText, bar, colon, terminated, tokens-terminated_whole, Nonempty,
  Lacks-append, IsDigits-Lacks,
}
use bitswash.Settings.Reading.{IsInt, int32_lem}
use bitswash.Columns.{
  Column, Heading, same_text, token, set_named, width_of, read_setting, read_settings, init,
  choice_text, kept_width, append_settings, settings,
}
use bitswash.Columns.Texts.{
  same_text_refl, same_text-false, append_cons-ne-nil, choice_text-Lacks, choice_text-same,
}

module _ (w : WxText) (text : IsText w) (translate : Chars → Chars) (outside : ℤ)
    (hs : List Heading) where
  -- A name without separators, and a width that fits.
  pub record IsKept (c : Column) : Type 0 where
    pub no_colon : Lacks colon (translate c.name)
    pub no_bar : Lacks bar (translate c.name)
    pub width_fits : IsInt (kept_width w translate outside hs c)

  -- The same names in the same order, none of them twice.
  abbrev pub Alike : List Column → List Column → Type 0
  Alike [] [] = Unit {0}
  Alike [] (d ∷ ds) = ⊥
  Alike (c ∷ cs) [] = ⊥
  Alike (c ∷ cs) (d ∷ ds) =
      (translate c.name ≡ translate d.name)
      × All (λ (e : Column). translate d.name ≢ translate e.name) cs
      × Alike cs ds

  -- The second column with the width and the choice of the first.
  abbrev pub recall : Column → Column → Column
  recall c d = record d { width = kept_width w translate outside hs c; show = c.show }

  -- The second list with the widths and choices of the first.
  unfoldable pub recalled : List Column → List Column → List Column
  recalled [] ds = []
  recalled (c ∷ cs) [] = []
  recalled (c ∷ cs) (d ∷ ds) = recall c d ∷ recalled cs ds

  setting_text : Column → Chars
  setting_text c =
      translate c.name
      ++ colon
        ∷ (w.print (kept_width w translate outside hs c)
            ++ colon ∷ (choice_text c.show ++ colon ∷ []))

  append_settings-terminated :
      (out : Chars) (cs : List Column)
      → append_settings w translate outside hs out cs ≡ out ++ terminated bar (map setting_text cs)
  unfolding append_settings terminated setting_text
  append_settings-terminated out [] = sym (append-nil out)
  append_settings-terminated out (c ∷ cs) =
      append_settings-terminated
        (out
          ++ (translate c.name
              ++ colon
                ∷ (w.print (kept_width w translate outside hs c)
                    ++ colon ∷ (choice_text c.show ++ colon ∷ bar ∷ []))))
        cs
      ∙ simp append_assoc

  setting_text-fields :
      (c : Column)
      → IsKept c
      → w.fields colon (setting_text c)
        ≡ translate c.name
          ∷ w.print (kept_width w translate outside hs c)
          ∷ choice_text c.show
          ∷ []
          ∷ []
  unfolding setting_text
  setting_text-fields c k =
      let number = text.print-IsDigits (kept_width w translate outside hs c) in
      text.fields_sep colon _ _ k.no_colon (append_cons-ne-nil _ _ colon)
      ∙ ap (λ (r : List Chars). translate c.name ∷ r)
          (text.fields_sep colon _ _
              (IsDigits-Lacks colon _ (omega arith) (inr (omega arith)) number)
              (append_cons-ne-nil _ _ colon)
            ∙ ap (λ (r : List Chars). w.print (kept_width w translate outside hs c) ∷ r)
                (text.fields_end colon _ (choice_text-Lacks c.show).0))

  setting_text-Lacks : (c : Column) → IsKept c → Lacks bar (setting_text c)
  unfolding setting_text
  setting_text-Lacks c k = Lacks-append bar _ _ k.no_bar (
    omega arith,
    Lacks-append bar (w.print (kept_width w translate outside hs c)) _
        (IsDigits-Lacks bar _ (omega arith) (inr (omega arith))
          (text.print-IsDigits (kept_width w translate outside hs c)))
        (
          omega arith,
          Lacks-append bar (choice_text c.show) _ (choice_text-Lacks c.show).1 (omega arith, tt),
        ),
  )

  width_of-print : (z : ℤ) → IsInt z → width_of w translate (w.print z) ≡ z
  unfolding width_of
  width_of-print z h =
      rw (text.to_long-print z (omega (arith, h.0), omega (arith, h.1)), width_of) (int32_lem z h)

  read_setting-setting_text :
      (c : Column) (ds : List Column)
      → IsKept c
      → read_setting w translate (setting_text c) ds
        ≡ set_named w translate (translate c.name) (kept_width w translate outside hs c) c.show ds
  unfolding read_setting token
  read_setting-setting_text c ds k =
      rw (setting_text-fields c k, width_of-print _ k.width_fits, choice_text-same c.show) refl

  read_settings-skip :
      (d : Column) (cs ds : List Column)
      → All IsKept cs
      → All (λ (e : Column). translate d.name ≢ translate e.name) cs
      → read_settings w translate (map setting_text cs) (d ∷ ds)
        ≡ d ∷ read_settings w translate (map setting_text cs) ds
  unfolding read_settings set_named
  read_settings-skip d [] ds ks ns = refl
  read_settings-skip d (c ∷ cs) ds (k, ks) (n, ns) =
      ap (read_settings w translate (map setting_text cs)) (
        read_setting-setting_text c (d ∷ ds) k
        ∙ rw (same_text-false _ _ n) refl
        ∙ ap (λ (r : List Column). d ∷ r) (sym (read_setting-setting_text c ds k)))
      ∙ read_settings-skip d cs (read_setting w translate (setting_text c) ds) ks ns

  set_named-first :
      (c d : Column) (ds : List Column)
      → translate c.name ≡ translate d.name
      → set_named w translate
          (translate c.name)
          (kept_width w translate outside hs c)
          c.show
          (d ∷ ds)
        ≡ recall c d ∷ ds
  unfolding set_named
  set_named-first c d ds e =
      let same : same_text (translate d.name) (translate c.name) ≡ true =
        ap (same_text (translate d.name)) e ∙ same_text_refl (translate d.name) in
      rw same refl

  read_settings-recalled :
      (cs ds : List Column)
      → All IsKept cs
      → Alike cs ds
      → read_settings w translate (map setting_text cs) ds ≡ recalled cs ds
  unfolding read_settings set_named recalled
  read_settings-recalled [] [] ks a = refl
  read_settings-recalled [] (d ∷ ds) ks a = absurd a
  read_settings-recalled (c ∷ cs) [] ks a = absurd a
  read_settings-recalled (c ∷ cs) (d ∷ ds) (k, ks) (e, ns, a) =
      ap (read_settings w translate (map setting_text cs))
        (read_setting-setting_text c (d ∷ ds) k ∙ set_named-first c d ds e)
      ∙ read_settings-skip (recall c d) cs ds ks ns
      ∙ ap (λ (r : List Column). recall c d ∷ r) (read_settings-recalled cs ds ks a)

  init-eq :
      (t : Chars) (ds : List Column)
      → t ≢ []
      → init w translate t ds ≡ read_settings w translate (w.tokens bar t) ds
  unfolding init
  init-eq [] ds n = absurd (n refl)
  init-eq (x ∷ xs) ds n = refl

  texts-Nonempty : (cs : List Column) → Nonempty (map setting_text cs)
  unfolding setting_text
  texts-Nonempty [] = tt
  texts-Nonempty (c ∷ cs) = (append_cons-ne-nil _ _ colon, texts-Nonempty cs)

  texts-Lacks : (cs : List Column) → All IsKept cs → All (Lacks bar) (map setting_text cs)
  texts-Lacks [] ks = tt
  texts-Lacks (c ∷ cs) (k, ks) = (setting_text-Lacks c k, texts-Lacks cs ks)

  init-terminated :
      (cs ds : List Column)
      → All IsKept cs
      → Alike cs ds
      → init w translate (terminated bar (map setting_text cs)) ds ≡ recalled cs ds
  unfolding init terminated recalled
  init-terminated [] [] ks a = refl
  init-terminated [] (d ∷ ds) ks a = absurd a
  init-terminated (c ∷ cs) ds ks a =
      init-eq _ ds (append_cons-ne-nil (setting_text c) _ bar)
      ∙ ap (λ (ts : List Chars). read_settings w translate ts ds)
          (tokens-terminated_whole w text bar _ _ (texts-Nonempty (c ∷ cs))
            (texts-Lacks (c ∷ cs) ks))
      ∙ read_settings-recalled (c ∷ cs) ds ks a

  -- Where no name of a column holds a colon or a bar and each width that is written fits an
  -- `int`, `SwashListCtrl::Init` of the text that `Settings` gives, for a table with the same
  -- names in the same order and none of them twice, leaves that table with the widths and choices
  -- of the list: for a column that is shown the width of its heading, and else its own.
  pub init-settings :
      (cs table : List Column)
      → All IsKept cs
      → Alike cs table
      → init w translate
          (settings w translate outside (record { columns = cs; headings = hs }))
          table
        ≡ recalled cs table
  unfolding settings
  init-settings cs table ks a =
      ap (λ (t : Chars). init w translate t table) (append_settings-terminated [] cs)
      ∙ init-terminated cs table ks a
