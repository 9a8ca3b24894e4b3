-- ===== src/Directories/Lost.antt =====
-- A file that `MoveDirectory` (src/functions.cpp) does not copy is lost.
use bitswash.Prelude.{
  [], ◌∷◌, ◌++◌, none, some, false, String, str_eq, eq_iff, ◌≡◌, refl, sym, ap, ◌∙◌, arith,
  Bool-cases, Option-cases, inl, inr,
}
use bitswash.Directories.{
  Node, Folder, file, folder, special, nothing, entry, FilePath, Access, get, put, fill,
  copy_entries, copy_node, copy_directory, remove_directory, move_directory,
}
use bitswash.Directories.Moved.{IsTree, IsOpen, remove_node-none}

module _ (a : Access) (open_all : IsOpen a) where
  get-put :
      (m n : String) (x : Node) (d : Folder) → str_eq m n ≡ false → get n (put m x d) ≡ get n d
  unfolding get put
  get-put m n x nothing e = ground arith
  get-put m n x (entry k y d) e =
      ground (arith, get-put m n x d e, eq_iff k m, eq_iff k n, eq_iff m n)

  -- A copy of one entry changes no other name.
  get-copy_node :
      (from to : FilePath) (m n : String) (x : Node) (d : Folder)
      → str_eq m n ≡ false
      → get n (copy_node a from to m x d) ≡ get n d
  unfolding copy_node
  get-copy_node from to m n (file c) d e = ground (arith, get-put m n (file c) d e)
  get-copy_node from to m n (folder f) d e =
      elim (Option-cases (fill (a.makes to) (copy_entries a from to f) (get m d))) [
        | inl q ↦ rw (open_all.opens_all from, q) refl
        | inr (x, q) ↦ rw (open_all.opens_all from, q) (get-put m n x d e)
      ]
  get-copy_node from to m n special d e = refl

  get-copy_entries :
      (from to : FilePath) (n : String) (src d : Folder)
      → get n src ≡ none
      → get n (copy_entries a from to src d) ≡ get n d
  unfolding copy_entries get
  get-copy_entries from to n nothing d h = refl
  get-copy_entries from to n (entry m x rest) d h = elim (Bool-cases (str_eq m n)) [
    | inl e ↦ cc
    | inr e ↦
        get-copy_entries from to n rest (copy_node a (from ++ m ∷ []) (to ++ m ∷ []) m x d)
          (ground arith)
        ∙ get-copy_node (from ++ m ∷ []) (to ++ m ∷ []) m n x d e
  ]

  copy_node-skip :
      (from to : FilePath) (m c : String) (x : Node) (d : Folder)
      → x ≡ file c
      → a.copies from ≡ false
      → copy_node a from to m x d ≡ d
  unfolding copy_node
  copy_node-skip from to m c x d e k = rw (e, k) refl

  not_copied :
      (from to : FilePath) (n : String) (c : String) (src d : Folder)
      → IsTree src
      → get n src ≡ some (file c)
      → a.copies (from ++ n ∷ []) ≡ false
      → get n (copy_entries a from to src d) ≡ get n d
  unfolding copy_entries get
  not_copied from to n c nothing d t h k = refl
  not_copied from to n c (entry m x rest) d (fresh, tx, t) h k = elim (Bool-cases (str_eq m n)) [
    | inl e ↦
        let same : m ≡ n = (eq_iff m n).0 e in
        let x_file : x ≡ file c = ground (arith, e) in
        let gone : get n rest ≡ none = ap (λ (s : String). get s rest) (sym same) ∙ fresh in
        let denied : a.copies (from ++ m ∷ []) ≡ false =
          ap (λ (s : String). a.copies (from ++ s ∷ [])) same ∙ k in
        ap (λ (g : Folder). get n (copy_entries a from to rest g))
          (copy_node-skip (from ++ m ∷ []) (to ++ m ∷ []) m c x d x_file denied)
        ∙ get-copy_entries from to n rest d gone
    | inr e ↦
        not_copied from to n c rest (copy_node a (from ++ m ∷ []) (to ++ m ∷ []) m x d) t
          (ground (arith, e)) k
        ∙ get-copy_node (from ++ m ∷ []) (to ++ m ∷ []) m n x d e
  ]

  -- Where the source is a tree of files and directories in which no directory has a name twice,
  -- there is no target yet, and all that is not a copy of a file succeeds, a file directly in the
  -- source that is not copied is lost: `MoveDirectory` leaves nothing of the source, and the
  -- target has no such file.
  pub move_directory_lost :
      (from to : FilePath) (n : String) (c : String) (src : Folder)
      → IsTree src
      → get n src ≡ some (file c)
      → a.copies (from ++ n ∷ []) ≡ false
      → (d : Folder) × (move_directory a from to src none ≡ (none, some (folder d)))
        × (get n d ≡ none)
  unfolding move_directory remove_directory copy_directory get
  move_directory_lost from to n c src t h k = (
    copy_entries a from to src nothing,
    (λ i. (remove_node-none a open_all from (folder src) t i, copied i)),
    not_copied from to n c src nothing t h k,
  )
    where
      copied :
          (copy_directory a from to src none).0 ≡ some (folder (copy_entries a from to src nothing))
      copied = rw (open_all.opens_all from, open_all.makes_all to) refl
