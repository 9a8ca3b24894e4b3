-- ===== src/Settings/Transfer.antt =====
-- The limits for all torrents and the sections `DHT` and `Encryption` of `Configuration::Load` and
-- `Save` (src/configuration.cpp). An enumeration is the number that the file has for it.
use bitswash.Prelude.{ℕ, ℤ, pos, negsuc, List, [], Bool, true, false, ◌∷◌}
use bitswash.Wx.{Entry, WxText, FileConfig}
use bitswash.Settings.Reading.{
  Reader, as_int32, read_long, read_int, read_uint, read_uint8, read_bool, two_uploads,
}

pub record Transfer : Type 0 where
  pub connect_boost : ℕ
  pub storagemode : ℤ
  pub global_upload_limit : ℤ
  pub global_download_limit : ℤ
  pub global_max_connections : ℤ
  pub global_max_uploads : ℤ
  pub usedefault : Bool
  pub dht_enabled : Bool
  pub dht_port : ℕ
  pub dht_max_peers : ℤ
  pub dht_search_branching : ℤ
  pub dht_max_fail : ℤ
  pub enc_enabled : Bool
  pub enc_policy : ℤ
  pub enc_level : ℤ
  pub enc_prefer_rc4 : Bool

-- `Save` first raises the number of uploads to 2.
unfoldable pub clamp_transfer : Transfer → Transfer
clamp_transfer t = record t { global_max_uploads = two_uploads t.global_max_uploads }

module _ (w : WxText) (f : FileConfig) where
  -- What `Save` writes, in this order.
  abbrev pub transfer_entries : Transfer → List Entry
  transfer_entries t =
      ("/Torrent/connect_boost", w.print (pos t.connect_boost))
      ∷ ("/Torrent/storagemode", w.print t.storagemode)
      ∷ ("/Torrent/global_upload_limit", w.print t.global_upload_limit)
      ∷ ("/Torrent/global_download_limit", w.print t.global_download_limit)
      ∷ ("/Torrent/global_max_connections", w.print t.global_max_connections)
      ∷ ("/Torrent/global_max_uploads", w.print t.global_max_uploads)
      ∷ ("/Torrent/use_default", f.print_bool t.usedefault)
      ∷ ("/DHT/dht_enabled", f.print_bool t.dht_enabled)
      ∷ ("/DHT/dht_port", w.print (as_int32 t.dht_port))
      ∷ ("/DHT/dht_max_peers", w.print t.dht_max_peers)
      ∷ ("/DHT/dht_search_branching", w.print t.dht_search_branching)
      ∷ ("/DHT/dht_max_fail", w.print t.dht_max_fail)
      ∷ ("/Encryption/enc_enabled", f.print_bool t.enc_enabled)
      ∷ ("/Encryption/enc_policy", w.print t.enc_policy)
      ∷ ("/Encryption/enc_level", w.print t.enc_level)
      ∷ ("/Encryption/enc_prefer_rc4", f.print_bool t.enc_enabled)
      ∷ []

  unfoldable pub load_transfer : Reader → Transfer
  load_transfer read = record {
    connect_boost = read_uint8 w read "/Torrent/connect_boost" (pos 255);
    storagemode = read_long w read "/Torrent/storagemode" (pos 1);
    global_upload_limit = read_int w read "/Torrent/global_upload_limit" (negsuc 0);
    global_download_limit = read_int w read "/Torrent/global_download_limit" (negsuc 0);
    global_max_connections = read_int w read "/Torrent/global_max_connections" (pos 250);
    global_max_uploads = two_uploads (read_int w read "/Torrent/global_max_uploads" (pos 20));
    usedefault = read_bool f read "/Torrent/use_default" false;
    dht_enabled = read_bool f read "/DHT/dht_enabled" true;
    dht_port = read_uint w read "/DHT/dht_port" (pos 26_881);
    dht_max_peers = read_int w read "/DHT/dht_max_peers" (pos 50);
    dht_search_branching = read_int w read "/DHT/dht_search_branching" (pos 5);
    dht_max_fail = read_int w read "/DHT/dht_max_fail" (pos 20);
    enc_enabled = read_bool f read "/Encryption/enc_enabled" true;
    enc_policy = read_int w read "/Encryption/enc_policy" (pos 1);
    enc_level = read_int w read "/Encryption/enc_level" (pos 2);
    enc_prefer_rc4 = read_bool f read "/Encryption/enc_enabled" true;
  }
