-- ===== src/Directories/Moved.antt =====
-- `MoveDirectory` (src/functions.cpp) moves all of a directory where every operation succeeds.
use bitswash.Prelude.{
  [], ◌∷◌, ◌++◌, Option, none, some, true, false, String, str_eq, eq_iff, ◌≡◌, refl, sym, ap, ◌∙◌,
  arith,
}
use bitswash.Directories.{
  Node, Folder, file, folder, special, nothing, entry, FilePath, Access, get, put, copy_entries,
  copy_node, remove_entries, remove_node, copy_directory, remove_directory, move_directory, leave,
  emptied,
}

-- A tree of files and directories, in which no directory has a name twice.
abbrev mutual
  pub IsTree : Folder → Type 0
  IsTree nothing = Unit {0}
  IsTree (entry n x rest) = (get n rest ≡ none) × IsTreeNode x × IsTree rest

  pub IsTreeNode : Node → Type 0
  IsTreeNode (file c) = Unit {0}
  IsTreeNode (folder f) = IsTree f
  IsTreeNode special = ⊥

-- All but copies of files succeed.
pub record IsOpen (a : Access) : Type 0 where
  pub opens_all : (p : FilePath) → a.opens p ≡ true
  pub makes_all : (p : FilePath) → a.makes p ≡ true
  pub removes_all : (p : FilePath) → a.removes p ≡ true
  pub removes_dirs : (p : FilePath) → a.removes_dir p ≡ true

append : Folder → Folder → Folder
append nothing e = e
append (entry n x d) e = entry n x (append d e)

append-nothing : (d : Folder) → append d nothing ≡ d
unfolding append
append-nothing nothing = refl
append-nothing (entry n x d) = ap (entry n x) (append-nothing d)

append_assoc : (c d e : Folder) → append (append c d) e ≡ append c (append d e)
unfolding append
append_assoc nothing d e = refl
append_assoc (entry n x c) d e = ap (entry n x) (append_assoc c d e)

put-eq-append :
    (n : String) (x : Node) (d : Folder) → get n d ≡ none → put n x d ≡ append d (entry n x nothing)
unfolding put append get
put-eq-append n x nothing h = refl
put-eq-append n x (entry m y d) h = ground (arith, put-eq-append n x d)

get-append :
    (m n : String) (x : Node) (d : Folder)
    → get m d ≡ none
    → str_eq n m ≡ false
    → get m (append d (entry n x nothing)) ≡ none
unfolding get append
get-append m n x nothing h e = ground arith
get-append m n x (entry k y d) h e = ground (arith, get-append m n x d)

-- No name of the first is in the second.
Apart : Folder → Folder → Type 0
Apart nothing d = Unit {0}
Apart (entry n x rest) d = (get n d ≡ none) × Apart rest d

Apart-nothing : (src : Folder) → Apart src nothing
unfolding Apart get
Apart-nothing nothing = tt
Apart-nothing (entry n x rest) = (refl, Apart-nothing rest)

ne_sym :
    (m n : String) (rest : Folder) (y : Node) → get n (entry m y rest) ≡ none → str_eq n m ≡ false
unfolding get
ne_sym m n rest y h = ground (arith, eq_iff n m, eq_iff m n)

Apart-append :
    (rest : Folder) (n : String) (x : Node) (d : Folder)
    → Apart rest d
    → get n rest ≡ none
    → Apart rest (append d (entry n x nothing))
unfolding Apart get
Apart-append nothing n x d a h = tt
Apart-append (entry m y rest) n x d (a, apart) h =
    (get-append m n x d a (ne_sym m n rest y h), Apart-append rest n x d apart (ground arith))

module _ (a : Access) (open_all : IsOpen a) where
  module _ (copies_all : (p : FilePath) → a.copies p ≡ true) where
    mutual
      unfolding copy_entries copy_node Apart append

      copy_entries-eq-append :
          (from to : FilePath) (src d : Folder)
          → IsTree src
          → Apart src d
          → copy_entries a from to src d ≡ append d src
      copy_entries-eq-append from to nothing d t apart = sym (append-nothing d)
      copy_entries-eq-append from to (entry n x rest) d (fresh, tx, t) (new, apart) =
          ap (copy_entries a from to rest)
            (copy_node-eq-append (from ++ n ∷ []) (to ++ n ∷ []) n x d tx new)
          ∙ copy_entries-eq-append from to rest (append d (entry n x nothing)) t
              (Apart-append rest n x d apart fresh)
          ∙ append_assoc d (entry n x nothing) rest

      copy_node-eq-append :
          (from to : FilePath) (n : String) (x : Node) (d : Folder)
          → IsTreeNode x
          → get n d ≡ none
          → copy_node a from to n x d ≡ append d (entry n x nothing)
      copy_node-eq-append from to n (file c) d t new =
          rw (copies_all from, new) (put-eq-append n (file c) d new)
      copy_node-eq-append from to n (folder f) d t new =
          rw (open_all.opens_all from, new, open_all.makes_all to)
            (ap (λ (g : Folder). put n (folder g) d)
                (copy_entries-eq-append from to f nothing t (Apart-nothing f))
              ∙ put-eq-append n (folder f) d new)
      copy_node-eq-append from to n special d t new = elim t [ ]

  mutual
    unfolding remove_entries remove_node

    remove_entries-nothing :
        (path : FilePath) (src : Folder) → IsTree src → remove_entries a path src ≡ nothing
    remove_entries-nothing path nothing t = refl
    remove_entries-nothing path (entry n x rest) (fresh, tx, t) =
        ap (λ (o : Option Node). leave n o (remove_entries a path rest))
          (remove_node-none (path ++ n ∷ []) x tx)
        ∙ remove_entries-nothing path rest t

    pub remove_node-none : (path : FilePath) (x : Node) → IsTreeNode x → remove_node a path x ≡ none
    remove_node-none path (file c) t = rw (open_all.removes_all path) refl
    remove_node-none path (folder f) t =
        rw (open_all.opens_all path, open_all.removes_dirs path)
          (ap (emptied true) (remove_entries-nothing path f t))
    remove_node-none path special t = elim t [ ]

  -- Where the source is a tree of files and directories in which no directory has a name twice,
  -- there is no target yet, and every operation succeeds, `MoveDirectory` leaves nothing of the
  -- source, and the target is the whole tree.
  pub move_directory_all :
      (from to : FilePath) (src : Folder)
      → IsTree src
      → ((p : FilePath) → a.copies p ≡ true)
      → move_directory a from to src none ≡ (none, some (folder src))
  unfolding move_directory remove_directory copy_directory append
  move_directory_all from to src t copies_all =
      λ i. (remove_node-none from (folder src) t i, copied i)
    where
      copied : (copy_directory a from to src none).0 ≡ some (folder src)
      copied =
          rw (open_all.opens_all from, open_all.makes_all to)
            (ap (λ (g : Folder). some (folder g))
              (copy_entries-eq-append copies_all from to src nothing t (Apart-nothing src)))
