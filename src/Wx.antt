-- ===== src/Wx.antt =====
-- What the settings and the torrents' files use of wxWidgets: texts (`wxString`,
-- `wxStringTokenizer`, `wxAtoi`) and the store of entries (`wxFileConfig`). Their code is not in
-- the repository, so the operations are parameters, with the laws that their manual gives.
mod Text
mod Entries
mod Joined
pub use Text.{
  Chars, codes, All, Lacks, comma, bar, colon, semicolon, WxText, IsText, IsDigits, IsPlain, dollar,
  backslash, FitsInt, FitsLong,
}
unfoldable pub use Entries.{write_all}
pub use Entries.{entry-write_all, FileConfig, IsFileConfig, Entry, stored, wrote, seen}
pub use Joined.{
  Nonempty, tokens-terminated, tokens-terminated_whole, before_last-terminated, before_last-IsPlain,
  IsDigits-Lacks, IsDigits-IsPlain, Lacks-append,
}
unfoldable pub use Joined.{terminated}
