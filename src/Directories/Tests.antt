-- ===== src/Directories/Tests.antt =====
-- Instances of the theorems on directories, on a small tree.
use bitswash.Prelude.{[], ◌∷◌, none, some, Bool, true, false, str_eq, not, ◌≡◌, refl}
use bitswash.Directories.{
  Folder, file, folder, nothing, entry, FilePath, Access, get, move_directory,
}
use bitswash.Directories.Moved.{IsTree, IsOpen, move_directory_all}
use bitswash.Directories.Lost.{move_directory_lost}

abbrev tree : Folder
tree = entry "a" (file "x") (entry "b" (folder (entry "a" (file "y") nothing)) nothing)

tree-IsTree : IsTree tree
unfolding get
tree-IsTree = (refl, tt, (refl, (refl, tt, tt), tt))

is_x : FilePath → Bool
is_x [] = false
is_x (s ∷ []) = false
is_x (s ∷ t ∷ ts) = str_eq t "a"

-- All is allowed but copies of what is called `a` in the source.
abbrev access : (FilePath → Bool) → Access
access copies = record {
  opens = λ p. true;
  makes = λ p. true;
  copies = copies;
  removes = λ p. true;
  removes_dir = λ p. true;
}

access-IsOpen : (copies : FilePath → Bool) → IsOpen (access copies)
access-IsOpen copies = record {
  opens_all = λ p. refl;
  makes_all = λ p. refl;
  removes_all = λ p. refl;
  removes_dirs = λ p. refl;
}

move_directory_all_example :
    move_directory (access (λ p. true)) ("old" ∷ []) ("new" ∷ []) tree none
    ≡ (none, some (folder tree))
move_directory_all_example =
    move_directory_all (access (λ p. true)) (access-IsOpen (λ p. true)) ("old" ∷ []) ("new" ∷ [])
      tree tree-IsTree (λ p. refl)

move_directory_lost_example :
    (d : Folder) × (move_directory (access (λ p. not (is_x p))) ("old" ∷ []) ("new" ∷ []) tree none
      ≡ (none, some (folder d)))
    × (get "a" d ≡ none)
unfolding get is_x
move_directory_lost_example =
    move_directory_lost (access (λ p. not (is_x p))) (access-IsOpen (λ p. not (is_x p)))
      ("old" ∷ []) ("new" ∷ []) "a" "x" tree tree-IsTree refl refl
