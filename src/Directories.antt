-- ===== src/Directories.antt =====
-- `RemoveDirectory`, `CopyDirectory` and `MoveDirectory` (src/functions.cpp) on trees of files. What
-- the system permits is a parameter: for each path, whether an operation on it succeeds. Links are
-- left out, and the two trees of a copy are apart.
pub mod Moved
pub mod Lost
pub mod Tests
use bitswash.Prelude.{
  List, [], ◌∷◌, ◌++◌, Option, none, some, Bool, true, false, not, ◌&&◌, String, str_eq,
  if◌then◌else◌,
}

mutual
  pub data Node : Type 0 where
    file : String → Node
    folder : Folder → Node
    -- neither a file nor a directory
    special : Node

  -- What a directory holds, in the order in which it is listed.
  pub data Folder : Type 0 where
    nothing : Folder
    entry : String → Node → Folder → Folder

abbrev pub FilePath : Type 0
FilePath = List String

-- Whether the system opens or makes a directory, copies or removes a file, and removes an empty
-- directory.
pub record Access : Type 0 where
  pub opens : FilePath → Bool
  pub makes : FilePath → Bool
  pub copies : FilePath → Bool
  pub removes : FilePath → Bool
  pub removes_dir : FilePath → Bool

unfoldable pub get : String → Folder → Option Node
get n nothing = none
get n (entry m x rest) = if str_eq m n then some x else get n rest

-- A name that is new goes to the end.
unfoldable pub put : String → Node → Folder → Folder
put n x nothing = entry n x nothing
put n x (entry m y rest) = if str_eq m n then entry m x rest else entry m y (put n x rest)

abbrev pub put_if : String → Option Node → Folder → Folder
put_if n none d = d
put_if n (some x) d = put n x d

-- `wxCopyFile` over what stands at the target: a file is replaced, a directory is not.
abbrev pub is_folder : Option Node → Bool
is_folder (some (folder f)) = true
is_folder _ = false

-- `wxMkdir` where there is no directory, and the loop over the entries, which does nothing where
-- the target is no directory after that.
abbrev pub fill : Bool → (Folder → Folder) → Option Node → Option Node
fill made loop none = if made then some (folder (loop nothing)) else none
fill made loop (some (file c)) = some (file c)
fill made loop (some special) = some special
fill made loop (some (folder d)) = some (folder (loop d))

-- An entry that is left, before those that are.
abbrev pub leave : String → Option Node → Folder → Folder
leave n none rest = rest
leave n (some x) rest = entry n x rest

-- `wxRmdir` removes a directory only where nothing is left in it.
abbrev pub emptied : Bool → Folder → Option Node
emptied true nothing = none
emptied true (entry n x rest) = some (folder (entry n x rest))
emptied false f = some (folder f)

module _ (a : Access) where
  unfoldable mutual
    -- The loop of `CopyDirectory`, into a directory.
    pub copy_entries : FilePath → FilePath → Folder → Folder → Folder
    copy_entries from to nothing d = d
    copy_entries from to (entry n x rest) d =
        copy_entries from to rest (copy_node (from ++ n ∷ []) (to ++ n ∷ []) n x d)

    pub copy_node : FilePath → FilePath → String → Node → Folder → Folder
    copy_node from to n (file c) d =
        if a.copies from && not (is_folder (get n d)) then put n (file c) d else d
    copy_node from to n (folder f) d =
        if a.opens from
        then put_if n (fill (a.makes to) (copy_entries from to f) (get n d)) d
        else d
    copy_node from to n special d = d

  unfoldable mutual
    -- What is left of a directory after the loop of `RemoveDirectory`.
    pub remove_entries : FilePath → Folder → Folder
    remove_entries path nothing = nothing
    remove_entries path (entry n x rest) =
        leave n (remove_node (path ++ n ∷ []) x) (remove_entries path rest)

    pub remove_node : FilePath → Node → Option Node
    remove_node path (file c) = if a.removes path then none else some (file c)
    remove_node path (folder f) =
        if a.opens path
        then emptied (a.removes_dir path) (remove_entries path f)
        else some (folder f)
    remove_node path special = some special

  -- `CopyDirectory`: the target, and whether it reports success.
  unfoldable pub copy_directory : FilePath → FilePath → Folder → Option Node → Option Node × Bool
  copy_directory from to src dst =
      if a.opens from
      then (fill (a.makes to) (copy_entries from to src) dst, true)
      else (dst, false)

  -- `RemoveDirectory`: what is left of the directory, `none` where it was removed.
  unfoldable pub remove_directory : FilePath → Folder → Option Node
  remove_directory path src = remove_node path (folder src)

  -- `MoveDirectory`: what is left of the source, and the target.
  unfoldable pub move_directory :
      FilePath → FilePath → Folder → Option Node → Option Node × Option Node
  move_directory from to src dst = (remove_directory from src, (copy_directory from to src dst).0)
