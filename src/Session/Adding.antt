-- ===== src/Session/Adding.antt =====
-- Handing a torrent to libtorrent: `AddTorrentToSession` and `AddMagnetUriToSession` of
-- src/bittorrentsession.cpp. Their `try` blocks turn an exception of libtorrent into a log message.
use bitswash.Prelude.{ℕ, String, none, some, Bool, true, false, ◌==◌, ◌||◌, if◌then◌else◌, ◌|>◌}
use bitswash.Torrent.{Torrent, is_pause}
use bitswash.LibTorrent.{World, AddParams, async_add_torrent}
use bitswash.Session.{Session, Configuration, emit, insert_queued}

abbrev pub is_empty : String → Bool
is_empty String.[] = true
is_empty (String.◌∷◌ c s) = false

-- The parameters of a torrent with metadata, over those of its resume file.
unfoldable pub torrent_params : Configuration → Torrent → AddParams → AddParams
torrent_params c t p = record p {
  params_info = t.info;
  params_save_path = t.config.download_path;
  params_max_connections = c.max_connections;
  params_max_uploads = c.max_uploads;
  params_upload_limit = c.default_upload_limit;
  params_download_limit = c.default_download_limit;
  params_storage_mode = t.config.storage_mode;
  flag_paused = is_pause t.config.torrent_state || p.flag_paused;
  flag_duplicate_is_error = false;
  flag_auto_managed = false;
}

-- The parameters of a torrent that has only a magnet URI.
unfoldable pub magnet_params : Configuration → Torrent → AddParams → AddParams
magnet_params c t p = record p {
  params_save_path = t.config.download_path;
  params_max_connections = c.max_connections;
  params_max_uploads = c.max_uploads;
  params_upload_limit = c.default_upload_limit;
  params_download_limit = c.default_download_limit;
  flag_paused = true;
  flag_duplicate_is_error = false;
  flag_auto_managed = false;
  flag_upload_mode = true;
}

-- `async_add_torrent`, then the hash enters `m_queue_torrent_set`; neither if the call throws.
unfoldable pub async_add : World → ℕ → AddParams → Session → Session
async_add w h p s =
    if w.throws s.history (async_add_torrent p)
    then s
    else (s |> emit (async_add_torrent p) |> insert_queued h)

unfoldable pub add_torrent_to_session : World → ℕ → Session → Session
add_torrent_to_session w r s =
    let t = s.store r in
    async_add w t.hash (torrent_params s.config t (w.resume_params s.history t.hash)) s

unfoldable pub add_magnet_uri_to_session : World → ℕ → Session → Session
add_magnet_uri_to_session w r s =
    let t = s.store r in
    if is_empty t.config.magnet_uri then s else (elim (w.parse_magnet_uri t.config.magnet_uri) [
      | none ↦ s
      | some p ↦ if t.hash == 0 then s else async_add w t.hash (magnet_params s.config t p) s
    ])

-- The two ways into the session, by whether the metadata is there.
unfoldable pub add_to_session : World → ℕ → Session → Session
add_to_session w r s = elim (s.store r).info [
  | some i ↦ add_torrent_to_session w r s
  | none ↦ add_magnet_uri_to_session w r s
]
