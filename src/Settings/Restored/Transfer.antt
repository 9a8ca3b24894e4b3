-- ===== src/Settings/Restored/Transfer.antt =====
-- The section of `Transfer` comes back from a file as it was saved, but for the fields of
-- `restored_transfer`.
use bitswash.Prelude.{pos, negsuc, true, false, refl, ◌≡◌}
use bitswash.Wx.{WxText, FileConfig}
use bitswash.Settings.Reading.{Reader, IsInt, IsUint, IsUint8, two_uploads}
use bitswash.Settings.Restored.Written.{
  Written, IsInt-FitsLong, long_field, int_field, uint_field, uint8_field, uploads_field,
  bool_field,
}
use bitswash.Settings.Transfer.{Transfer, load_transfer}
use bitswash.Settings.File.{Settings, entries}

-- The values that the fields' types have.
pub record TransferFits (t : Transfer) : Type 0 where
  pub storagemode : IsInt t.storagemode
  pub connect_boost : IsUint8 t.connect_boost
  pub global_upload_limit : IsInt t.global_upload_limit
  pub global_download_limit : IsInt t.global_download_limit
  pub global_max_connections : IsInt t.global_max_connections
  pub global_max_uploads : IsInt t.global_max_uploads
  pub dht_port : IsUint t.dht_port
  pub dht_max_peers : IsInt t.dht_max_peers
  pub dht_search_branching : IsInt t.dht_search_branching
  pub dht_max_fail : IsInt t.dht_max_fail
  pub enc_policy : IsInt t.enc_policy
  pub enc_level : IsInt t.enc_level

-- What a `Load` makes of the fields that it does not give back as they were.
unfoldable pub restored_transfer : Transfer → Transfer
restored_transfer t = record t {
  global_max_uploads = two_uploads t.global_max_uploads;
  enc_prefer_rc4 = t.enc_enabled;
}

module _ (w : WxText) (f : FileConfig) {old : Reader} {read : Reader} (s : Settings w)
    (h : Written w f old (entries w f s) read) where
  pub load_transfer-written :
      TransferFits s.transfer → load_transfer w f read ≡ restored_transfer s.transfer
  unfolding load_transfer restored_transfer entries
  load_transfer-written fits = λ i. record {
    connect_boost =
        uint8_field h "/Torrent/connect_boost" (pos 255) s.transfer.connect_boost fits.connect_boost
          refl i;
    storagemode =
        long_field h "/Torrent/storagemode" (pos 1) s.transfer.storagemode
          (IsInt-FitsLong _ fits.storagemode) refl i;
    global_upload_limit =
        int_field h "/Torrent/global_upload_limit" (negsuc 0) s.transfer.global_upload_limit
          fits.global_upload_limit refl i;
    global_download_limit =
        int_field h "/Torrent/global_download_limit" (negsuc 0) s.transfer.global_download_limit
          fits.global_download_limit refl i;
    global_max_connections =
        int_field h "/Torrent/global_max_connections" (pos 250) s.transfer.global_max_connections
          fits.global_max_connections refl i;
    global_max_uploads =
        uploads_field h "/Torrent/global_max_uploads" (pos 20) s.transfer.global_max_uploads
          fits.global_max_uploads refl i;
    usedefault = bool_field h "/Torrent/use_default" false s.transfer.usedefault refl i;
    dht_enabled = bool_field h "/DHT/dht_enabled" true s.transfer.dht_enabled refl i;
    dht_port = uint_field h "/DHT/dht_port" (pos 26_881) s.transfer.dht_port fits.dht_port refl i;
    dht_max_peers =
        int_field h "/DHT/dht_max_peers" (pos 50) s.transfer.dht_max_peers fits.dht_max_peers refl
          i;
    dht_search_branching =
        int_field h "/DHT/dht_search_branching" (pos 5) s.transfer.dht_search_branching
          fits.dht_search_branching refl i;
    dht_max_fail =
        int_field h "/DHT/dht_max_fail" (pos 20) s.transfer.dht_max_fail fits.dht_max_fail refl i;
    enc_enabled = bool_field h "/Encryption/enc_enabled" true s.transfer.enc_enabled refl i;
    enc_policy =
        int_field h "/Encryption/enc_policy" (pos 1) s.transfer.enc_policy fits.enc_policy refl i;
    enc_level =
        int_field h "/Encryption/enc_level" (pos 2) s.transfer.enc_level fits.enc_level refl i;
    enc_prefer_rc4 = bool_field h "/Encryption/enc_enabled" true s.transfer.enc_enabled refl i;
  }
