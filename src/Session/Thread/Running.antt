-- ===== src/Session/Thread/Running.antt =====
-- The session's thread from its start to its end, `Entry` (src/bittorrentsession.cpp): the scan of
-- the directory of torrents, and the rounds until the thread is told to end or its queue of messages
-- fails. The settings of libtorrent and exceptions that reach the loop are left out.
pub mod Ending
pub mod Timing
use bitswash.Prelude.{
  ℕ, List, [], ◌∷◌, Option, none, some, Bool, true, false, ◌||◌, if◌then◌else◌, ◌>>=◌,
}
use bitswash.LibTorrent.{World}
use bitswash.Session.{Session}
use bitswash.Session.Scanning.{TorrentSource, UriLine, scan_torrents_directory}
use bitswash.Session.Thread.{Thread, Input, entry_round}

-- A round: what it receives, what `TestDestroy` answers, and whether the queue of messages failed.
pub record Round : Type 0 where
  pub input : Input
  pub is_destroyed : Bool
  pub is_broken : Bool

-- The thread after the rounds, and whether its loop has ended in one of them.
unfoldable pub entry_loop : World → List Round → Thread → Option (Bool × Thread)
entry_loop w [] t = some (false, t)
entry_loop w (r ∷ rs) t = entry_round w r.input t >>= λ u.
    let rest = entry_loop w rs u in if r.is_destroyed || r.is_broken then some (true, u) else rest

-- `now` is the time before the first round, which checks the queue.
unfoldable pub entry :
    World
    → Option (List TorrentSource)
    → List UriLine
    → (Session → List ℕ → List ℕ)
    → ℕ
    → List Round
    → Session
    → Option (Bool × Thread)
entry w files lines sort now rounds s = scan_torrents_directory w files lines sort s >>= λ s1.
    entry_loop w rounds (record { session = s1; check_now = true; start_time = now })
