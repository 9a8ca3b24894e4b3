-- ===== src/Columns/Tests.antt =====
-- A list of three columns, its text, and its menu.
use bitswash.Prelude.{
  ℕ, ℤ, pos, negsuc, List, [], ◌∷◌, true, false, ◌≡◌, ◌≢◌, refl, ap, Returns, arith,
}
use bitswash.Wx.{Chars, codes, comma}
use bitswash.Sample.{sample, sample-IsText}
use bitswash.Columns.{
  Column, Heading, ListCtrl, init, settings, on_column_selected, column_id, kept_width,
  column_width,
}
use bitswash.Columns.RoundTrip.{IsKept, recalled, init-settings}
use bitswash.Columns.Numbering.{
  IsNumbered, shown_before, column_id-column, on_column_selected-IsNumbered,
  on_column_selected-unnumbered,
}

abbrev own : Chars → Chars
own t = t

abbrev asked : Chars → ℤ → ℤ
asked t z = z

abbrev size : Column
size = record {
  name = codes "Size";
  title = codes "Size";
  width = pos 80;
  show = false;
  column = negsuc 0;
}

abbrev progress : Column
progress = record {
  name = codes "Progress";
  title = codes "Done";
  width = pos 68;
  show = true;
  column = pos 0;
}

abbrev ratio : Column
ratio = record {
  name = codes "Ratio";
  title = codes "Ratio";
  width = pos 82;
  show = false;
  column = negsuc 0;
}

abbrev headings : List Heading
headings = record { text = codes "Done"; heading_width = pos 70 } ∷ []

abbrev columns : List Column
columns = size ∷ progress ∷ ratio ∷ []

abbrev list : ListCtrl
list = record { columns = columns; headings = headings }

abbrev Kept : Column → Type 0
Kept = IsKept (sample comma) (sample-IsText comma) own (pos 0) headings

size-Kept : Kept size
unfolding kept_width
size-Kept = record {
  no_colon = ground arith;
  no_bar = ground arith;
  width_fits = (omega arith, omega arith);
}

progress-Kept : Kept progress
unfolding kept_width column_width
progress-Kept = record {
  no_colon = ground arith;
  no_bar = ground arith;
  width_fits = (omega arith, omega arith);
}

ratio-Kept : Kept ratio
unfolding kept_width
ratio-Kept = record {
  no_colon = ground arith;
  no_bar = ground arith;
  width_fits = (omega arith, omega arith);
}

names_differ : (b d : ℕ) (cs ds : Chars) → b ≢ d → b ∷ cs ≢ d ∷ ds
names_differ b d cs ds n e = n (ap (λ (t : Chars). elim t [ [] ↦ b | x ∷ xs ↦ x ]) e)

init-settings_example :
    init (sample comma) own (settings (sample comma) own (pos 0) list) columns
    ≡ size ∷ record progress { width = pos 70 } ∷ ratio ∷ []
unfolding recalled kept_width column_width
init-settings_example =
    init-settings (sample comma) (sample-IsText comma) own (pos 0) headings columns columns
      (size-Kept, (progress-Kept, (ratio-Kept, tt)))
      (
        refl,
        (names_differ b'S' b'P' _ _ (omega arith), (names_differ b'S' b'R' _ _ (omega arith), tt)),
        (refl, (names_differ b'P' b'R' _ _ (omega arith), tt), (refl, tt, tt)),
      )

list-IsNumbered : IsNumbered 0 columns
list-IsNumbered = (refl, (refl, (refl, tt)))

none_before : shown_before 0 columns ≡ 0
unfolding shown_before
none_before = refl

one_before : shown_before 2 columns ≢ 2
unfolding shown_before
one_before e = omega (arith, e)

column_id_of_progress : column_id list (pos 0) ≡ pos 1
column_id_of_progress = column_id-column list 1 progress list-IsNumbered refl refl

on_column_selected-IsNumbered_example :
    Returns
      (λ (m : ListCtrl). IsNumbered 0 m.columns)
      (on_column_selected (sample comma) own (pos 0) asked 0 true list)
on_column_selected-IsNumbered_example =
    on_column_selected-IsNumbered (sample comma) own (pos 0) asked list 0 size refl true
      list-IsNumbered refl (λ e. none_before)

on_column_selected-unnumbered_example :
    Returns
      (λ (m : ListCtrl). ¬ IsNumbered 0 m.columns)
      (on_column_selected (sample comma) own (pos 0) asked 2 true list)
on_column_selected-unnumbered_example =
    on_column_selected-unnumbered (sample comma) own (pos 0) asked list 2 ratio refl one_before
