-- ===== src/Session.antt =====
-- The state of `BitTorrentSession` (src/bittorrentsession.h, .cpp) and its small operations.
-- `shared_ptr<torrent_t>` is an address in `store`, so that the queue and a caller's pointer alias
-- one object as they do in the source. Each operation is one step, also where the source holds
-- `m_torrent_queue_lock` for a part of it only; the lock itself, log messages and assertions are
-- left out.
pub mod Adding
pub mod Tests
pub mod Loading
pub mod Alerts
pub mod Stopping
pub mod Preview
pub mod Configuring
pub mod Starting
pub mod Vector
pub mod Moving
pub mod Membership
pub mod Scheduler
pub mod Scheduling
pub mod Thread
pub mod Balance
pub mod Lifecycle
pub mod Order
pub mod ByIndex
pub mod Closing
pub mod Scanning
pub mod Requests
pub mod Frame
pub mod Index
use bitswash.Prelude.{
  ℕ, ℤ, String, List, [], ◌∷◌, Option, none, some, Bool, true, false, ◌==◌, if◌then◌else◌, update,
  get_elem?, ◌|>◌, suc,
}
use bitswash.Torrent.{Torrent, TorrentConfig, TorrentState, Stats, clamp_uploads}
use bitswash.LibTorrent.{
  World, Effect, History, TorrentStatus, is_valid, save_config, post_queue_update,
}

-- The fields of `Configuration` (src/configuration.h) that these operations read.
pub record Configuration : Type 0 where
  pub max_start : ℕ
  pub exclude_seed : Bool
  pub max_connections : ℤ
  pub max_uploads : ℤ
  pub default_upload_limit : ℤ
  pub default_download_limit : ℤ
  pub save_path_history : List String

pub record Session : Type 0 where
  pub store : ℕ → Torrent
  pub torrent_queue : List ℕ
  pub running_torrent_map : ℕ → Option ℕ
  pub queue_torrent_set : ℕ → Bool
  pub metadata_queue : List ℕ
  pub config : Configuration
  -- newest first
  pub history : History

unfoldable pub emit : Effect → Session → Session
emit e s = record s { history = e ∷ s.history }

-- A call inside a `try` block: an exception is logged, and nothing else happens.
unfoldable pub attempt : World → Effect → Session → Session
attempt w e s = if w.throws s.history e then s else emit e s

unfoldable pub set_torrent : ℕ → Torrent → Session → Session
set_torrent r t s = record s { store = update s.store r t }

unfoldable pub modify_config : ℕ → (TorrentConfig → TorrentConfig) → Session → Session
modify_config r f s = let t = s.store r in set_torrent r (record t { config = f t.config }) s

-- `torrent->config->SetQIndex(z)`
unfoldable pub set_qindex : ℕ → ℤ → Session → Session
set_qindex r z = modify_config r (λ c. record c { qindex = z })

unfoldable pub set_torrent_state : ℕ → TorrentState → Session → Session
set_torrent_state r z = modify_config r (λ c. record c { torrent_state = z })

unfoldable pub set_stats : ℕ → TorrentStatus → Session → Session
set_stats r st = modify_config r λ c. record c {
  stats = record {
    progress = st.progress_ppm;
    total_download = st.total_payload_download;
    total_upload = st.total_payload_upload;
  };
}

-- `torrent->config->Save()`
unfoldable pub save : ℕ → Session → Session
save r s =
    let s' = modify_config r clamp_uploads s in
    emit (save_config (s'.store r).hash (s'.store r).config) s'

unfoldable pub set_running : ℕ → ℕ → Session → Session
set_running h i s = record s { running_torrent_map = update s.running_torrent_map h (some i) }

-- `std::map::insert`, which keeps an entry that is there.
unfoldable pub insert_running : ℕ → ℕ → Session → Session
insert_running h i s = elim (s.running_torrent_map h) [ none ↦ set_running h i s | some j ↦ s ]

unfoldable pub erase_running : ℕ → Session → Session
erase_running h s = record s { running_torrent_map = update s.running_torrent_map h none }

unfoldable pub insert_queued : ℕ → Session → Session
insert_queued h s = record s { queue_torrent_set = update s.queue_torrent_set h true }

unfoldable pub erase_queued : ℕ → Session → Session
erase_queued h s = record s { queue_torrent_set = update s.queue_torrent_set h false }

unfoldable pub set_queue : List ℕ → Session → Session
set_queue q s = record s { torrent_queue = q }

-- `torrent->handle.is_valid()`
unfoldable pub handle_valid : World → ℕ → Session → Bool
handle_valid w r s = is_valid w s.history (s.store r).handle

unfoldable pub find_torrent_by_hash : ℕ → Session → Option ℕ
find_torrent_by_hash h s = s.running_torrent_map h

unfoldable pub find_torrent : ℕ → Session → Option ℕ
find_torrent h s = find_torrent_by_hash h s

-- `GetTorrent(hash)`; `none` is the empty pointer. `at` throws out of range, which
-- `Index.get_torrent-some` rules out.
unfoldable pub get_torrent_by_hash : ℕ → Session → Option ℕ
get_torrent_by_hash h s = elim (find_torrent_by_hash h s) [
  | none ↦ none
  | some i ↦ get_elem? s.torrent_queue i
]

-- `GetTorrent(idx)`, with its check of `0 <= idx`.
unfoldable pub get_torrent : ℤ → Session → Option ℕ
get_torrent (ℤ.pos i) s = get_elem? s.torrent_queue i
get_torrent (ℤ.negsuc i) s = none
