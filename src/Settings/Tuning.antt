-- ===== src/Settings/Tuning.antt =====
-- The section `Session` of `Configuration::Load` and `Save` (src/configuration.cpp), first part: what
-- is handed to libtorrent about trackers, peers and the disk.
use bitswash.Prelude.{ℤ, pos, String, List, [], Bool, true, false, ◌∷◌}
use bitswash.Wx.{Chars, codes, Entry, WxText, FileConfig}
use bitswash.Settings.Reading.{Reader, read_text, read_int, read_real, read_bool}

-- The last node is split by a comma where a colon was meant.
abbrev pub bootstrap_nodes : String
bootstrap_nodes =
    "dht.libtorrent.org:25401,router.bittorrent.com:6881,router.utorrent.com:6881,dht.transmissionbt.com:6881,dht.aelitis.com:6881, router.bitcomet.com, 6881"

module _ (w : WxText) where
  pub record Tuning : Type 0 where
    pub dhtbootstrapnodes : Chars
    pub tracker_completion_timeout : ℤ
    pub tracker_receive_timeout : ℤ
    pub stop_tracker_timeout : ℤ
    pub tracker_maximum_response_length : ℤ
    pub piece_timeout : ℤ
    pub request_queue_time : w.Real
    pub max_allowed_in_request_queue : ℤ
    pub max_out_request_queue : ℤ
    pub whole_pieces_threshold : ℤ
    pub peer_timeout : ℤ
    pub urlseed_timeout : ℤ
    pub urlseed_pipeline_size : ℤ
    pub file_pool_size : ℤ
    pub max_failcount : ℤ
    pub min_reconnect_time : ℤ
    pub peer_connect_timeout : ℤ
    pub ignore_limits_on_local_network : Bool
    pub connection_speed : ℤ
    pub send_redundant_have : Bool
    pub lazy_bitfields : Bool
    pub inactivity_timeout : ℤ
    pub unchoke_interval : ℤ
    pub optimistic_unchoke_multiplier : ℤ
    pub num_want : ℤ
    pub initial_picker_threshold : ℤ
    pub allowed_fast_set_size : ℤ
    pub max_outstanding_disk_bytes_per_connection : ℤ
    pub handshake_timeout : ℤ
    pub use_dht_as_fallback : Bool
    pub free_torrent_hashes : Bool

module _ (w : WxText) (f : FileConfig) where
  -- What `Save` writes, in this order.
  abbrev pub tuning_entries : Bool → Tuning w → List Entry
  tuning_entries allow_multiple t =
      ("/Session/dht_bootstrap_nodes", t.dhtbootstrapnodes)
      ∷ ("/Session/tracker_completion_timeout", w.print t.tracker_completion_timeout)
      ∷ ("/Session/tracker_receive_timeout", w.print t.tracker_receive_timeout)
      ∷ ("/Session/stop_tracker_timeout", w.print t.stop_tracker_timeout)
      ∷ ("/Session/tracker_maximum_response_length", w.print t.tracker_maximum_response_length)
      ∷ ("/Session/piece_timeout", w.print t.piece_timeout)
      ∷ ("/Session/request_queue_time", w.print_real t.request_queue_time)
      ∷ ("/Session/max_allowed_in_request_queue", w.print t.max_allowed_in_request_queue)
      ∷ ("/Session/max_out_request_queue", w.print t.max_out_request_queue)
      ∷ ("/Session/whole_pieces_threshold", w.print t.whole_pieces_threshold)
      ∷ ("/Session/peer_timeout", w.print t.peer_timeout)
      ∷ ("/Session/urlseed_timeout", w.print t.urlseed_timeout)
      ∷ ("/Session/urlseed_pipeline_size", w.print t.urlseed_pipeline_size)
      ∷ ("/Session/file_pool_size", w.print t.file_pool_size)
      ∷ ("/Session/allow_multiple_connections_per_ip", f.print_bool allow_multiple)
      ∷ ("/Session/max_failcount", w.print t.max_failcount)
      ∷ ("/Session/min_reconnect_time", w.print t.min_reconnect_time)
      ∷ ("/Session/peer_connect_timeout", w.print t.peer_connect_timeout)
      ∷ ("/Session/ignore_limits_on_local_network", f.print_bool t.ignore_limits_on_local_network)
      ∷ ("/Session/connection_speed", w.print t.connection_speed)
      ∷ ("/Session/send_redundant_have", f.print_bool t.send_redundant_have)
      ∷ ("/Session/lazy_bitfields", f.print_bool t.lazy_bitfields)
      ∷ ("/Session/inactivity_timeout", w.print t.inactivity_timeout)
      ∷ ("/Session/unchoke_interval", w.print t.unchoke_interval)
      ∷ ("/Session/optimistic_unchoke_multiplier", w.print t.optimistic_unchoke_multiplier)
      ∷ ("/Session/num_want", w.print t.num_want)
      ∷ ("/Session/initial_picker_threshold", w.print t.initial_picker_threshold)
      ∷ ("/Session/allowed_fast_set_size", w.print t.allowed_fast_set_size)
      ∷ (
        "/Session/max_outstanding_disk_bytes_per_connection",
        w.print t.max_outstanding_disk_bytes_per_connection,
      )
      ∷ ("/Session/handshake_timeout", w.print t.handshake_timeout)
      ∷ ("/Session/use_dht_as_fallback", f.print_bool t.use_dht_as_fallback)
      ∷ ("/Session/free_torrent_hashes", f.print_bool t.free_torrent_hashes)
      ∷ []

  unfoldable pub load_tuning : Reader → Tuning w
  load_tuning read = record {
    dhtbootstrapnodes = read_text read "/Session/dht_bootstrap_nodes" (codes bootstrap_nodes);
    tracker_completion_timeout = read_int w read "/Session/tracker_completion_timeout" (pos 60);
    tracker_receive_timeout = read_int w read "/Session/tracker_receive_timeout" (pos 20);
    stop_tracker_timeout = read_int w read "/Session/stop_tracker_timeout" (pos 5);
    tracker_maximum_response_length =
        read_int w read "/Session/tracker_maximum_response_length" (pos 1_048_576);
    piece_timeout = read_int w read "/Session/piece_timeout" (pos 10);
    request_queue_time = read_real w read "/Session/request_queue_time" w.three;
    max_allowed_in_request_queue =
        read_int w read "/Session/max_allowed_in_request_queue" (pos 250);
    max_out_request_queue = read_int w read "/Session/max_out_request_queue" (pos 200);
    whole_pieces_threshold = read_int w read "/Session/whole_pieces_threshold" (pos 20);
    peer_timeout = read_int w read "/Session/peer_timeout" (pos 120);
    urlseed_timeout = read_int w read "/Session/urlseed_timeout" (pos 20);
    urlseed_pipeline_size = read_int w read "/Session/urlseed_pipeline_size" (pos 5);
    file_pool_size = read_int w read "/Session/file_pool_size" (pos 40);
    max_failcount = read_int w read "/Session/max_failcount" (pos 3);
    min_reconnect_time = read_int w read "/Session/min_reconnect_time" (pos 60);
    peer_connect_timeout = read_int w read "/Session/peer_connect_timeout" (pos 7);
    ignore_limits_on_local_network =
        read_bool f read "/Session/ignore_limits_on_local_network" true;
    connection_speed = read_int w read "/Session/connection_speed" (pos 20);
    send_redundant_have = read_bool f read "/Session/send_redundant_have" false;
    lazy_bitfields = read_bool f read "/Session/lazy_bitfields" true;
    inactivity_timeout = read_int w read "/Session/inactivity_timeout" (pos 600);
    unchoke_interval = read_int w read "/Session/unchoke_interval" (pos 15);
    optimistic_unchoke_multiplier =
        read_int w read "/Session/optimistic_unchoke_multiplier" (pos 4);
    num_want = read_int w read "/Session/num_want" (pos 200);
    initial_picker_threshold = read_int w read "/Session/initial_picker_threshold" (pos 4);
    allowed_fast_set_size = read_int w read "/Session/allowed_fast_set_size" (pos 10);
    max_outstanding_disk_bytes_per_connection =
        read_int w read "/Session/max_outstanding_disk_bytes_per_connection" (pos 65_536);
    handshake_timeout = read_int w read "/Session/handshake_timeout" (pos 10);
    use_dht_as_fallback = read_bool f read "/Session/use_dht_as_fallback" true;
    free_torrent_hashes = read_bool f read "/Session/free_torrent_hashes" true;
  }
