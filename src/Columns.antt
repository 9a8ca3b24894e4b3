-- ===== src/Columns.antt =====
-- The columns of a list, `SwashListCtrl` (src/swashlistctrl.cpp): the text that keeps their widths,
-- and the menu that shows and hides them. `translate` is `wxGetTranslation`, and `fit` is the width
-- that a heading has after `SetColumnWidth`. The headings that wxWidgets keeps are a list.
pub mod Texts
pub mod RoundTrip
pub mod Numbering
pub mod Tests
use bitswash.Prelude.{
  ℕ, zero, suc, ◌+◌, ℤ, pos, negsuc, ◌+ℤ◌, eqb_ℤ, List, [], ◌∷◌, ◌++◌, Option, none, some, Bool,
  true, false, ◌&&◌, ◌==◌, leb, length, get_elem?, insert_at, erase_at, if◌then◌else◌,
}
use bitswash.Wx.{Chars, codes, WxText, bar, colon}
use bitswash.Settings.Reading.{int32}

-- `SwashColumnItem`; a column that is hidden has the number -1.
pub record Column : Type 0 where
  pub name : Chars
  pub title : Chars
  pub width : ℤ
  pub show : Bool
  pub column : ℤ

pub record Heading : Type 0 where
  pub text : Chars
  pub heading_width : ℤ

pub record ListCtrl : Type 0 where
  pub columns : List Column
  pub headings : List Heading

unfoldable pub same_text : Chars → Chars → Bool
same_text [] [] = true
same_text (a ∷ cs) (b ∷ bs) = a == b && same_text cs bs
same_text _ _ = false

-- `GetNextToken`, which is empty after the last one.
unfoldable pub token : ℕ → List Chars → Chars
token i [] = []
token zero (t ∷ ts) = t
token (suc i) (t ∷ ts) = token i ts

-- `GetColumnWidth`; `outside` is what it gives where there is no such heading.
unfoldable pub column_width : ℤ → List Heading → ℤ → ℤ
column_width outside hs (negsuc i) = outside
column_width outside hs (pos i) = elim (get_elem? hs i) [
  | none ↦ outside
  | some h ↦ h.heading_width
]

-- A shown column behind one that appears.
unfoldable pub shift_up : List Column → List Column
shift_up [] = []
shift_up (c ∷ cs) =
    let rest = shift_up cs in
    if c.show then record c { column = c.column +ℤ pos 1 } ∷ rest else c ∷ rest

-- A shown column behind one that goes.
unfoldable pub shift_down : List Column → List Column
shift_down [] = []
shift_down (c ∷ cs) =
    let rest = shift_down cs in
    if c.show then record c { column = c.column +ℤ negsuc 0 } ∷ rest else c ∷ rest

-- The marks that `OnColumnSelected` makes for the column `k`, from the `i`th of those left on.
unfoldable pub mark_shown : ℕ → ℕ → List Column → List Column
mark_shown k i [] = []
mark_shown k zero (c ∷ cs) = record c { show = true; column = pos k } ∷ shift_up cs
mark_shown k (suc i) (c ∷ cs) = c ∷ mark_shown k i cs

unfoldable pub mark_hidden : ℕ → List Column → List Column
mark_hidden i [] = []
mark_hidden zero (c ∷ cs) = record c { show = false; column = negsuc 0 } ∷ shift_down cs
mark_hidden (suc i) (c ∷ cs) = c ∷ mark_hidden i cs

unfoldable pub set_width : ℕ → ℤ → List Column → List Column
set_width i z [] = []
set_width zero z (c ∷ cs) = record c { width = z } ∷ cs
set_width (suc i) z (c ∷ cs) = c ∷ set_width i z cs

-- The first column that is shown.
unfoldable pub first_shown : List Column → Option Column
first_shown [] = none
first_shown (c ∷ cs) = if c.show then some c else first_shown cs

unfoldable pub drop_columns : ℕ → List Column → List Column
drop_columns zero cs = cs
drop_columns (suc i) [] = []
drop_columns (suc i) (c ∷ cs) = drop_columns i cs

-- The last heading with the text, or else 0.
unfoldable pub last_with : Chars → ℕ → ℕ → List Heading → ℕ
last_with t j found [] = found
last_with t j found (h ∷ hs) = last_with t (j + 1) (if same_text h.text t then j else found) hs

unfoldable pub first_with : Chars → ℕ → List Heading → Option ℕ
first_with t j [] = none
first_with t j (h ∷ hs) = if same_text h.text t then some j else first_with t (j + 1) hs

-- `ColumnId`: the place of the column with a number, or -1.
unfoldable pub column_id_from : ℕ → ℤ → List Column → ℤ
column_id_from i z [] = negsuc 0
column_id_from i z (c ∷ cs) =
    if c.show && eqb_ℤ c.column z then pos i else column_id_from (i + 1) z cs

abbrev pub choice_text : Bool → Chars
choice_text true = codes "true"
choice_text false = codes "false"

module _ (w : WxText) (translate : Chars → Chars) where
  -- The width and the choice for the first column with the name.
  unfoldable pub set_named : Chars → ℤ → Bool → List Column → List Column
  set_named n z b [] = []
  set_named n z b (c ∷ cs) =
      if same_text (translate c.name) n
      then record c { width = z; show = b } ∷ cs
      else c ∷ set_named n z b cs

  unfoldable pub width_of : Chars → ℤ
  width_of t = elim (w.to_long t) [ none ↦ pos 0 | some z ↦ int32 z ]

  unfoldable pub read_setting : Chars → List Column → List Column
  read_setting t cs =
      let ts = w.fields colon t in
      set_named (token 0 ts) (width_of (token 1 ts)) (same_text (token 2 ts) (codes "true")) cs

  unfoldable pub read_settings : List Chars → List Column → List Column
  read_settings [] cs = cs
  read_settings (t ∷ ts) cs = read_settings ts (read_setting t cs)

  -- `Init`
  unfoldable pub init : Chars → List Column → List Column
  init [] cs = cs
  init (x ∷ xs) cs = read_settings (w.tokens bar (x ∷ xs)) cs

  module _ (outside : ℤ) where
    -- The width that `Settings` writes.
    unfoldable pub kept_width : List Heading → Column → ℤ
    kept_width hs c = if c.show then column_width outside hs c.column else c.width

    unfoldable pub append_settings : List Heading → Chars → List Column → Chars
    append_settings hs out [] = out
    append_settings hs out (c ∷ cs) =
        append_settings hs
          (out
            ++ (translate c.name
                ++ colon
                  ∷ (w.print (kept_width hs c)
                      ++ colon ∷ (choice_text c.show ++ colon ∷ bar ∷ []))))
          cs

    -- `Settings`
    unfoldable pub settings : ListCtrl → Chars
    settings l = append_settings l.headings [] l.columns

    module _ (fit : Chars → ℤ → ℤ) where
      -- `InsertColumn` and `SetColumnWidth`; -2 is `wxLIST_AUTOSIZE_USEHEADER`.
      unfoldable pub heading_of : Column → Heading
      heading_of c = record {
        text = translate c.title;
        heading_width =
            fit (translate c.title) (if eqb_ℤ c.width (pos 0) then negsuc 1 else c.width);
      }

      -- The loop of `Create`.
      unfoldable pub create_from : ℕ → List Column → List Column × List Heading
      create_from j [] = ([], [])
      create_from j (c ∷ cs) =
          let (cs1, hs1) = create_from (if c.show then j + 1 else j) cs in
          if c.show
          then (record c { column = pos j } ∷ cs1, heading_of c ∷ hs1)
          else (record c { column = negsuc 0 } ∷ cs1, hs1)

      unfoldable pub create : List Column → ListCtrl
      create cs = let (cs1, hs1) = create_from 0 cs in record { columns = cs1; headings = hs1 }

      -- Where `OnColumnSelected` inserts the heading of the column `k`.
      unfoldable pub insert_position : ℕ → ListCtrl → ℕ
      insert_position zero l = 0
      insert_position (suc k) l =
          if leb (length l.headings) (suc k)
          then length l.headings
          else elim (first_shown (drop_columns (suc (suc k)) l.columns)) [
            | none ↦ length l.headings
            | some c ↦
                let j = last_with (translate c.title) 0 0 l.headings in
                if j == 0 then length l.headings else j
          ]

      -- `OnColumnSelected` for a column that is checked, and for one that is not.
      unfoldable pub show_column : ℕ → ListCtrl → Option ListCtrl
      show_column k l = elim (get_elem? l.columns k) [
        | none ↦ none
        | some c ↦ some (record {
          columns = mark_shown k k l.columns;
          headings = insert_at l.headings (insert_position k l) (heading_of c);
        })
      ]

      unfoldable pub hide_column : ℕ → ListCtrl → Option ListCtrl
      hide_column k l = elim (get_elem? l.columns k) [
        | none ↦ none
        | some c ↦
            let marked = mark_hidden k l.columns in
            elim (first_with (translate c.title) 0 l.headings) [
              | none ↦ some (record l { columns = marked })
              | some j ↦ some (record {
                columns = set_width k (column_width outside l.headings (pos j)) marked;
                headings = erase_at l.headings j;
              })
            ]
      ]

      unfoldable pub on_column_selected : ℕ → Bool → ListCtrl → Option ListCtrl
      on_column_selected k checked l = if checked then show_column k l else hide_column k l

-- `ColumnId`
unfoldable pub column_id : ListCtrl → ℤ → ℤ
column_id l z = column_id_from 0 z l.columns
