-- ===== src/Columns/Numbering.antt =====
-- The numbers of a list's columns (src/swashlistctrl.cpp): each column that is shown has the number
-- of those shown before it, which is where its heading stands.
use bitswash.Prelude.{
  ℕ, zero, suc, ◌+◌, ℤ, pos, negsuc, ◌+ℤ◌, eqb_ℤ, List, [], ◌∷◌, some, Bool, true, false, not, ◌≡◌,
  ◌≢◌, refl, sym, ap, ◌∙◌, arith, get_elem?, Returns, returns, Bool-cases, Option-cases, inl, inr,
}
use bitswash.Wx.{Chars, WxText}
use bitswash.Columns.{
  Column, ListCtrl, shift_up, shift_down, mark_shown, mark_hidden, set_width, first_with,
  create_from, create, show_column, hide_column, on_column_selected, column_id_from, column_id,
}

abbrev pub number : Bool → ℕ → ℤ
number true n = pos n
number false n = negsuc 0

abbrev pub past : Bool → ℕ → ℕ
past true n = n + 1
past false n = n

-- The numbers are right, where `n` columns are shown before.
abbrev pub IsNumbered : ℕ → List Column → Type 0
IsNumbered n [] = Unit {0}
IsNumbered n (c ∷ cs) = (c.column ≡ number c.show n) × IsNumbered (past c.show n) cs

-- The number of columns shown among the first `i`.
unfoldable pub shown_before : ℕ → List Column → ℕ
shown_before zero cs = 0
shown_before (suc i) [] = 0
shown_before (suc i) (c ∷ cs) = past c.show (shown_before i cs)

number_up : (n : ℕ) → pos n +ℤ pos 1 ≡ pos (n + 1)
unfolding ◌+ℤ◌
number_up n = ground arith

number_down : (n : ℕ) → pos (n + 1) +ℤ negsuc 0 ≡ pos n
unfolding ◌+ℤ◌
number_down n = ground arith

shift_up-IsNumbered :
    (n : ℕ) (cs : List Column) → IsNumbered n cs → IsNumbered (n + 1) (shift_up cs)
unfolding shift_up
shift_up-IsNumbered n [] v = tt
shift_up-IsNumbered n (c ∷ cs) v = elim (Bool-cases c.show) [
  | inl h ↦
      let (e, u) : (c.column ≡ pos n) × IsNumbered (n + 1) cs = rw h at v in
      rw h (ap (λ (z : ℤ). z +ℤ pos 1) e ∙ number_up n, shift_up-IsNumbered (n + 1) cs u)
  | inr h ↦
      let (e, u) : (c.column ≡ negsuc 0) × IsNumbered n cs = rw h at v in
      rw h (e, shift_up-IsNumbered n cs u)
]

shift_down-IsNumbered :
    (n : ℕ) (cs : List Column) → IsNumbered (n + 1) cs → IsNumbered n (shift_down cs)
unfolding shift_down
shift_down-IsNumbered n [] v = tt
shift_down-IsNumbered n (c ∷ cs) v = elim (Bool-cases c.show) [
  | inl h ↦
      let (e, u) : (c.column ≡ pos (n + 1)) × IsNumbered (n + 1 + 1) cs = rw h at v in
      rw h (ap (λ (z : ℤ). z +ℤ negsuc 0) e ∙ number_down n, shift_down-IsNumbered (n + 1) cs u)
  | inr h ↦
      let (e, u) : (c.column ≡ negsuc 0) × IsNumbered (n + 1) cs = rw h at v in
      rw h (e, shift_down-IsNumbered n cs u)
]

past_sum : (b : Bool) (n m : ℕ) → n + past b m ≡ past b n + m
past_sum true n m = omega arith
past_sum false n m = refl

mark_shown-IsNumbered :
    (n k i : ℕ) (cs : List Column) (c : Column)
    → IsNumbered n cs
    → get_elem? cs i ≡ some c
    → c.show ≡ false
    → n + shown_before i cs ≡ k
    → IsNumbered n (mark_shown k i cs)
unfolding mark_shown shown_before
mark_shown-IsNumbered n k i [] c v e h q = tt
mark_shown-IsNumbered n k zero (d ∷ cs) c v e h q =
    let same : d.show ≡ false = ground (arith, e, h) in
    let (_, u) : (d.column ≡ negsuc 0) × IsNumbered n cs = rw same at v in
    (ap pos (sym q ∙ omega arith), shift_up-IsNumbered n cs u)
mark_shown-IsNumbered n k (suc i) (d ∷ cs) c v e h q = (
  v.0,
  mark_shown-IsNumbered (past d.show n) k i cs c v.1 e h
      (sym (past_sum d.show n (shown_before i cs)) ∙ q),
)

mark_shown-unnumbered :
    (n k i : ℕ) (cs : List Column) (c : Column)
    → get_elem? cs i ≡ some c
    → IsNumbered n (mark_shown k i cs)
    → n + shown_before i cs ≡ k
unfolding mark_shown shown_before
mark_shown-unnumbered n k i [] c e v = absurd (ground (arith, e))
mark_shown-unnumbered n k zero (d ∷ cs) c e v = ground (arith, v.0)
mark_shown-unnumbered n k (suc i) (d ∷ cs) c e v =
    past_sum d.show n (shown_before i cs) ∙ mark_shown-unnumbered (past d.show n) k i cs c e v.1

mark_hidden-IsNumbered :
    (n i : ℕ) (cs : List Column) (c : Column)
    → IsNumbered n cs
    → get_elem? cs i ≡ some c
    → c.show ≡ true
    → IsNumbered n (mark_hidden i cs)
unfolding mark_hidden
mark_hidden-IsNumbered n i [] c v e h = tt
mark_hidden-IsNumbered n zero (d ∷ cs) c v e h =
    let same : d.show ≡ true = ground (arith, e, h) in
    let (_, u) : (d.column ≡ pos n) × IsNumbered (n + 1) cs = rw same at v in
    (refl, shift_down-IsNumbered n cs u)
mark_hidden-IsNumbered n (suc i) (d ∷ cs) c v e h =
    (v.0, mark_hidden-IsNumbered (past d.show n) i cs c v.1 e h)

set_width-IsNumbered :
    (n i : ℕ) (z : ℤ) (cs : List Column) → IsNumbered n cs → IsNumbered n (set_width i z cs)
unfolding set_width
set_width-IsNumbered n i z [] v = tt
set_width-IsNumbered n zero z (c ∷ cs) v = v
set_width-IsNumbered n (suc i) z (c ∷ cs) v = (v.0, set_width-IsNumbered (past c.show n) i z cs v.1)

shown-number :
    (n k : ℕ) (cs : List Column) (c : Column)
    → IsNumbered n cs
    → get_elem? cs k ≡ some c
    → c.show ≡ true
    → c.column ≡ pos (n + shown_before k cs)
unfolding shown_before
shown-number n k [] c v e h = absurd (ground (arith, e))
shown-number n zero (d ∷ cs) c v e h =
    let same : d.show ≡ true = ground (arith, e, h) in
    let (q, _) : (d.column ≡ pos n) × IsNumbered (n + 1) cs = rw same at v in ground (arith, e, q)
shown-number n (suc k) (d ∷ cs) c v e h =
    shown-number (past d.show n) k cs c v.1 e h
    ∙ ap pos (sym (past_sum d.show n (shown_before k cs)))

column_id_from-IsNumbered :
    (n i k : ℕ) (cs : List Column) (c : Column)
    → IsNumbered n cs
    → get_elem? cs k ≡ some c
    → c.show ≡ true
    → column_id_from i c.column cs ≡ pos (i + k)
unfolding column_id_from
column_id_from-IsNumbered n i k [] c v e h = absurd (ground (arith, e))
column_id_from-IsNumbered n i zero (d ∷ cs) c v e h = ground (arith, e, h)
column_id_from-IsNumbered n i (suc k) (d ∷ cs) c v e h =
    let rest = column_id_from-IsNumbered (past d.show n) (i + 1) k cs c v.1 e h in
    let behind : c.column ≡ pos (past d.show n + shown_before k cs) =
      shown-number _ k cs c v.1 e h in
    elim (Bool-cases d.show) [
      | inl b ↦
          let (q, _) : (d.column ≡ pos n) × IsNumbered (n + 1) cs = rw b at v in
          let later : c.column ≡ pos (n + 1 + shown_before k cs) = rw b at behind in
          let other : eqb_ℤ d.column c.column ≡ false = rw (q, later) (ground arith) in
          rw (b, other) (rest ∙ ap pos (omega arith))
      | inr b ↦ rw b (rest ∙ ap pos (omega arith))
    ]

-- If the numbers are right, `ColumnId` of the number of a column that is shown is the column's place.
pub column_id-column :
    (l : ListCtrl) (k : ℕ) (c : Column)
    → IsNumbered 0 l.columns
    → get_elem? l.columns k ≡ some c
    → c.show ≡ true
    → column_id l c.column ≡ pos k
unfolding column_id
column_id-column l k c v e h =
    column_id_from-IsNumbered 0 0 k l.columns c v e h ∙ ap pos (omega arith)

module _ (w : WxText) (translate : Chars → Chars) (outside : ℤ) (fit : Chars → ℤ → ℤ) where
  create_from-IsNumbered :
      (n : ℕ) (cs : List Column) → IsNumbered n (create_from w translate outside fit n cs).0
  unfolding create_from
  create_from-IsNumbered n [] = tt
  create_from-IsNumbered n (c ∷ cs) = elim (Bool-cases c.show) [
    | inl b ↦ rw b (refl, create_from-IsNumbered (n + 1) cs)
    | inr b ↦ rw b (refl, create_from-IsNumbered n cs)
  ]

  create-IsNumbered : (cs : List Column) → IsNumbered 0 (create w translate outside fit cs).columns
  unfolding create
  create-IsNumbered cs = create_from-IsNumbered 0 cs

  module _ (l : ListCtrl) (k : ℕ) (c : Column) (at_k : get_elem? l.columns k ≡ some c) where
    -- If each column that is shown has the number of those shown before it and the others have
    -- -1, this is so again after `OnColumnSelected` hides a column that is shown, or shows one
    -- that is hidden and has no hidden column before it.
    pub on_column_selected-IsNumbered :
        (checked : Bool)
        → IsNumbered 0 l.columns
        → c.show ≡ not checked
        → (checked ≡ true → shown_before k l.columns ≡ k)
        → Returns
            (λ (m : ListCtrl). IsNumbered 0 m.columns)
            (on_column_selected w translate outside fit k checked l)
    unfolding on_column_selected show_column hide_column
    on_column_selected-IsNumbered true v h all_shown =
        rw (at_k, on_column_selected, show_column)
          (returns
            (mark_shown-IsNumbered 0 k k l.columns c v at_k h (omega (arith, all_shown refl))))
    on_column_selected-IsNumbered false v h all_shown =
        let marked = mark_hidden-IsNumbered 0 k l.columns c v at_k h in
        elim (Option-cases (first_with (translate c.title) 0 l.headings)) [
          | inl e ↦ rw (at_k, e, on_column_selected, hide_column) (returns marked)
          | inr (j, e) ↦
              rw (at_k, e, on_column_selected, hide_column)
                (returns (set_width-IsNumbered 0 k _ _ marked))
        ]

    -- Where a column before it is hidden, `OnColumnSelected` that shows a column leaves the
    -- numbers wrong: not each column has the number of those shown before it.
    pub on_column_selected-unnumbered :
        shown_before k l.columns ≢ k
        → Returns
            (λ (m : ListCtrl). ¬ IsNumbered 0 m.columns)
            (on_column_selected w translate outside fit k true l)
    unfolding on_column_selected show_column
    on_column_selected-unnumbered hidden =
        rw (at_k, on_column_selected, show_column)
          (returns (λ v. hidden (omega (arith, mark_shown-unnumbered 0 k k l.columns c at_k v))))
