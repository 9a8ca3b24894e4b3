-- ===== src/Settings/Restored/Tuning.antt =====
-- The section of `Tuning` comes back from a file as it was saved, but for the fields of
-- `restored_tuning`.
use bitswash.Prelude.{pos, none, some, true, false, refl, ◌≡◌}
use bitswash.Wx.{codes, WxText, FileConfig}
use bitswash.Settings.Reading.{Reader, IsInt}
use bitswash.Settings.Restored.Written.{Written, text_field, int_field, bool_field, real_field}
use bitswash.Settings.Tuning.{Tuning, load_tuning, bootstrap_nodes}
use bitswash.Settings.File.{Settings, entries}

-- The values that the fields' types have.
pub record TuningFits (w : WxText) (t : Tuning w) : Type 0 where
  pub tracker_completion_timeout : IsInt t.tracker_completion_timeout
  pub tracker_receive_timeout : IsInt t.tracker_receive_timeout
  pub stop_tracker_timeout : IsInt t.stop_tracker_timeout
  pub tracker_maximum_response_length : IsInt t.tracker_maximum_response_length
  pub piece_timeout : IsInt t.piece_timeout
  pub max_allowed_in_request_queue : IsInt t.max_allowed_in_request_queue
  pub max_out_request_queue : IsInt t.max_out_request_queue
  pub whole_pieces_threshold : IsInt t.whole_pieces_threshold
  pub peer_timeout : IsInt t.peer_timeout
  pub urlseed_timeout : IsInt t.urlseed_timeout
  pub urlseed_pipeline_size : IsInt t.urlseed_pipeline_size
  pub file_pool_size : IsInt t.file_pool_size
  pub max_failcount : IsInt t.max_failcount
  pub min_reconnect_time : IsInt t.min_reconnect_time
  pub peer_connect_timeout : IsInt t.peer_connect_timeout
  pub connection_speed : IsInt t.connection_speed
  pub inactivity_timeout : IsInt t.inactivity_timeout
  pub unchoke_interval : IsInt t.unchoke_interval
  pub optimistic_unchoke_multiplier : IsInt t.optimistic_unchoke_multiplier
  pub num_want : IsInt t.num_want
  pub initial_picker_threshold : IsInt t.initial_picker_threshold
  pub allowed_fast_set_size : IsInt t.allowed_fast_set_size
  pub max_outstanding_disk_bytes_per_connection : IsInt t.max_outstanding_disk_bytes_per_connection
  pub handshake_timeout : IsInt t.handshake_timeout

-- What a `Load` makes of the fields that it does not give back as they were.
unfoldable pub restored_tuning : (w : WxText) (f : FileConfig) → Tuning w → Tuning w
restored_tuning w f t = record t {
  dhtbootstrapnodes = f.expand t.dhtbootstrapnodes;
  request_queue_time = elim (w.to_double (f.expand (w.print_real t.request_queue_time))) [
    | none ↦ w.three
    | some x ↦ x
  ];
}

module _ (w : WxText) (f : FileConfig) {old : Reader} {read : Reader} (s : Settings w)
    (h : Written w f old (entries w f s) read) where
  pub load_tuning-written :
      TuningFits w s.tuning → load_tuning w f read ≡ restored_tuning w f s.tuning
  unfolding load_tuning restored_tuning entries
  load_tuning-written fits = λ i. record {
    dhtbootstrapnodes =
        text_field h "/Session/dht_bootstrap_nodes" (codes bootstrap_nodes)
          s.tuning.dhtbootstrapnodes refl i;
    tracker_completion_timeout =
        int_field h "/Session/tracker_completion_timeout" (pos 60)
          s.tuning.tracker_completion_timeout fits.tracker_completion_timeout refl i;
    tracker_receive_timeout =
        int_field h "/Session/tracker_receive_timeout" (pos 20) s.tuning.tracker_receive_timeout
          fits.tracker_receive_timeout refl i;
    stop_tracker_timeout =
        int_field h "/Session/stop_tracker_timeout" (pos 5) s.tuning.stop_tracker_timeout
          fits.stop_tracker_timeout refl i;
    tracker_maximum_response_length =
        int_field h "/Session/tracker_maximum_response_length" (pos 1_048_576)
          s.tuning.tracker_maximum_response_length fits.tracker_maximum_response_length refl i;
    piece_timeout =
        int_field h "/Session/piece_timeout" (pos 10) s.tuning.piece_timeout fits.piece_timeout refl
          i;
    request_queue_time =
        real_field h "/Session/request_queue_time" w.three s.tuning.request_queue_time refl i;
    max_allowed_in_request_queue =
        int_field h "/Session/max_allowed_in_request_queue" (pos 250)
          s.tuning.max_allowed_in_request_queue fits.max_allowed_in_request_queue refl i;
    max_out_request_queue =
        int_field h "/Session/max_out_request_queue" (pos 200) s.tuning.max_out_request_queue
          fits.max_out_request_queue refl i;
    whole_pieces_threshold =
        int_field h "/Session/whole_pieces_threshold" (pos 20) s.tuning.whole_pieces_threshold
          fits.whole_pieces_threshold refl i;
    peer_timeout =
        int_field h "/Session/peer_timeout" (pos 120) s.tuning.peer_timeout fits.peer_timeout refl
          i;
    urlseed_timeout =
        int_field h "/Session/urlseed_timeout" (pos 20) s.tuning.urlseed_timeout
          fits.urlseed_timeout refl i;
    urlseed_pipeline_size =
        int_field h "/Session/urlseed_pipeline_size" (pos 5) s.tuning.urlseed_pipeline_size
          fits.urlseed_pipeline_size refl i;
    file_pool_size =
        int_field h "/Session/file_pool_size" (pos 40) s.tuning.file_pool_size fits.file_pool_size
          refl i;
    max_failcount =
        int_field h "/Session/max_failcount" (pos 3) s.tuning.max_failcount fits.max_failcount refl
          i;
    min_reconnect_time =
        int_field h "/Session/min_reconnect_time" (pos 60) s.tuning.min_reconnect_time
          fits.min_reconnect_time refl i;
    peer_connect_timeout =
        int_field h "/Session/peer_connect_timeout" (pos 7) s.tuning.peer_connect_timeout
          fits.peer_connect_timeout refl i;
    ignore_limits_on_local_network =
        bool_field h "/Session/ignore_limits_on_local_network" true
          s.tuning.ignore_limits_on_local_network refl i;
    connection_speed =
        int_field h "/Session/connection_speed" (pos 20) s.tuning.connection_speed
          fits.connection_speed refl i;
    send_redundant_have =
        bool_field h "/Session/send_redundant_have" false s.tuning.send_redundant_have refl i;
    lazy_bitfields = bool_field h "/Session/lazy_bitfields" true s.tuning.lazy_bitfields refl i;
    inactivity_timeout =
        int_field h "/Session/inactivity_timeout" (pos 600) s.tuning.inactivity_timeout
          fits.inactivity_timeout refl i;
    unchoke_interval =
        int_field h "/Session/unchoke_interval" (pos 15) s.tuning.unchoke_interval
          fits.unchoke_interval refl i;
    optimistic_unchoke_multiplier =
        int_field h "/Session/optimistic_unchoke_multiplier" (pos 4)
          s.tuning.optimistic_unchoke_multiplier fits.optimistic_unchoke_multiplier refl i;
    num_want = int_field h "/Session/num_want" (pos 200) s.tuning.num_want fits.num_want refl i;
    initial_picker_threshold =
        int_field h "/Session/initial_picker_threshold" (pos 4) s.tuning.initial_picker_threshold
          fits.initial_picker_threshold refl i;
    allowed_fast_set_size =
        int_field h "/Session/allowed_fast_set_size" (pos 10) s.tuning.allowed_fast_set_size
          fits.allowed_fast_set_size refl i;
    max_outstanding_disk_bytes_per_connection =
        int_field h "/Session/max_outstanding_disk_bytes_per_connection" (pos 65_536)
          s.tuning.max_outstanding_disk_bytes_per_connection
          fits.max_outstanding_disk_bytes_per_connection refl i;
    handshake_timeout =
        int_field h "/Session/handshake_timeout" (pos 10) s.tuning.handshake_timeout
          fits.handshake_timeout refl i;
    use_dht_as_fallback =
        bool_field h "/Session/use_dht_as_fallback" true s.tuning.use_dht_as_fallback refl i;
    free_torrent_hashes =
        bool_field h "/Session/free_torrent_hashes" true s.tuning.free_torrent_hashes refl i;
  }
