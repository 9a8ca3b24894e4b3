-- ===== src/Lib.antt =====
-- A model of the core of BitSwash, a BitTorrent client over libtorrent and wxWidgets: the class
-- `BitTorrentSession`, which keeps the queue of torrents, starts, stops and moves them, and answers
-- to what libtorrent reports.
--
-- Parts and files:
-- - Torrent (src/bittorrentsession.h, src/torrentconfig.h): `torrent_t` and `TorrentConfig`.
-- - LibTorrent: what the session asks of libtorrent and of the file system. Commands are recorded
--   in a history; a query is any function of the history, and an argument of every definition
--   (`World`).
-- - Session (src/bittorrentsession.h): the state. `shared_ptr<torrent_t>` is an address in a store,
--   so that the queue and a caller alias one torrent. Its children follow the source:
--   Adding (`AddTorrentToSession`, `AddMagnetUriToSession`), Stopping (`StopTorrent`,
--   `QueueTorrent`, `PauseTorrent`), Starting (`StartTorrent`, `RecheckTorrent`,
--   `ReannounceTorrent`), Preview and Configuring (`ConfigureTorrent` and its parts), Vector
--   (accesses to the queue), Moving (`MoveTorrentUp`, `Down`, `Top`, `Bottom`), Membership
--   (`AddTorrent`, `RemoveTorrent`, `MergeTorrent`), Scheduler (`CheckQueueItem`), ByIndex (the
--   overloads that take a position), Alerts (`HandleTorrentAlerts`), and Loading (`LoadMagnetUri`,
--   `UpdateTorrentFileSize`, the end of `ScanTorrentsDirectory`, the loop of `SaveAllTorrent`),
--   Scanning (`ParseTorrent`, the rest of `ScanTorrentsDirectory`) and Closing (the rest of
--   `SaveAllTorrent`, `OnExit`), all of src/bittorrentsession.cpp.
-- - Session/Thread: a round of the session's thread, and Running, the whole of `Entry` of
--   src/bittorrentsession.cpp.
-- - Settings (src/configuration.h, src/configuration.cpp): `Configuration`, one file for each section
--   (Gui, General, Tuning, Protocol, Transfer, Defaults), File and Disk for `Load` and `Save` as a
--   whole, and Histories for the histories of paths. TorrentFile (src/torrentconfig.cpp): `Load` and
--   `Save` of `TorrentConfig`, and Codec for the texts of priorities and trackers.
-- - Wx: what these two use of wxWidgets. `WxText` and `FileConfig` are records of operations, and
--   `IsText` and `IsFileConfig` are the laws that the manual gives for them; Sample has operations
--   that meet the laws. Reading a text of a file expands the environment variables in it, as
--   wxFileConfig does unless it is told not to.
-- - InfoHash (src/infohash.cpp), Connection (`SetConnection` of src/bittorrentsession.cpp),
--   Readable (`HumanReadableByte` and `HumanReadableTime` of src/functions.cpp), Directories
--   (`RemoveDirectory`, `CopyDirectory` and `MoveDirectory` of src/functions.cpp, on trees of files),
--   Magnet (the forms of a magnet URI, src/magneturi.cpp) and Columns (the columns of a list,
--   `SwashListCtrl` of src/swashlistctrl.cpp). Counters is `UpdateCounters` of
--   src/bittorrentsession.cpp.
-- - Proofs: Session/Frame (what an operation on one torrent leaves alone), Session/Index (the map
--   from hashes to positions), Session/Order, Session/Lifecycle, Session/Scheduling and
--   Session/Balance (the scheduler), Session/Preview/Bounds, Session/Thread/Running,
--   Session/Requests (turns of the user interface and of the thread in any order), Settings/Restored
--   (each section comes back), Settings/RoundTrip, Usable and Recent, TorrentFile/Recovered, RoundTrip
--   and Lost, InfoHash/RoundTrip, Session/Scanning/Repeated, Session/Closing/Waiting,
--   Directories/Moved and Lost, Magnet/Settled, Columns/RoundTrip, Columns/Numbering,
--   Session/Alerts/Dropped and Counters/Window. The modules named Tests hold runs on small data.
--
-- The user interface calls the operations by position or by torrent; the session's thread calls
-- `CheckQueueItem` and `HandleTorrentAlerts`. Each is one function from session to session here, so
-- that turns of the two threads interleave as whole operations. In the source `LoadMagnetUri`,
-- `RemoveTorrent`, `StartTorrent`, `StopTorrent` and `RecheckTorrent` hold `m_torrent_queue_lock`,
-- a plain mutex, for a part of their work or not at all; what another thread does in between is not
-- modelled, and a thread that locks what it holds is taken to go on. An access to the queue out of
-- range, undefined in the source, is the result `none`. A map or a set keyed by the text of a hash
-- is a function of the number that the text stands for. All loops go over a list or count rounds
-- down, so that no fuel is needed.
--
-- Left out: log messages and assertions; exceptions that reach the loop of the session's thread;
-- the settings handed to libtorrent; the state of the DHT; the registry of Windows; the user
-- interface but for the columns of its lists; and libgeoip, a copy of a library. Exceptions of
-- libtorrent are modelled where torrents are added and stopped (those of `pause` and `status`,
-- which leave `StopTorrent`, in `stop_torrent_or_throw` alone), and not in the handlers of alerts.
-- A `long` has 64 bits. In the session `int` and `long` are unbounded, since positions, indices and
-- limits stay small; what is read from a file is cut to its type's width.
pub mod Prelude
pub mod Torrent
pub mod LibTorrent
pub mod Session
pub mod InfoHash
pub mod Connection
pub mod Readable
pub mod Tests
pub mod Wx
pub mod Settings
pub mod TorrentFile
pub mod Sample
pub mod Directories
pub mod Magnet
pub mod Columns
pub mod Counters
