-- ===== src/Settings/Histories.antt =====
-- The histories of paths: `AddSavePath` and `AddOpenPath` (src/configuration.h), `ReadSavePath`,
-- `WriteSavePath`, `ReadOpenPath` and `WriteOpenPath` (src/configuration.cpp). The two histories
-- have the same code and differ in their files and messages.
use bitswash.Prelude.{
  ℕ, List, [], ◌∷◌, ◌++◌, Option, none, some, Bool, leb, length, erase_at, if◌then◌else◌,
}
use bitswash.Wx.{Chars}

-- `BITSWASH_MAX_SAVE_PATH`, `BITSWASH_MAX_OPEN_PATH`
abbrev pub max_paths : ℕ
max_paths = 10

abbrev pub History : Type 0
History = List Chars

module _ (same : Chars → Chars → Bool) where
  -- The loop erases the first path that is the same but for its case, and stops.
  unfoldable pub erase_same : Chars → History → History
  erase_same path [] = []
  erase_same path (p ∷ ps) = if same p path then ps else p ∷ erase_same path ps

  -- `AddSavePath`, `AddOpenPath`
  unfoldable pub add_path : Chars → History → History
  add_path path hs =
      let ps = erase_same path hs in
      let ps' = if leb max_paths (length ps) then erase_at ps 0 else ps in ps' ++ path ∷ []

-- The loop over the lines of the file, which ends at the file's end or once the history is full.
unfoldable pub read_lines : List Chars → History → History
read_lines [] hs = hs
read_lines (l ∷ ls) hs =
    let hs' = hs ++ l ∷ [] in
    let rest = read_lines ls hs' in if leb max_paths (length hs') then hs' else rest

-- `ReadSavePath`, `ReadOpenPath`: `none` where the file does not open.
unfoldable pub read_history : Option (List Chars) → History → History
read_history none hs = hs
read_history (some ls) hs = read_lines ls hs

-- `WriteSavePath`, `WriteOpenPath`: the lines of the file, where it opens or is created, and is
-- written.
unfoldable pub write_history : Bool → Bool → History → Option (List Chars) → Option (List Chars)
write_history opened written hs file = if opened then if written then some hs else file else file
