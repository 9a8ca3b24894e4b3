-- ===== src/Settings/Restored/Protocol.antt =====
-- The section of `Protocol` comes back from a file as it was saved, but for the fields of
-- `restored_protocol`.
use bitswash.Prelude.{pos, negsuc, true, false, refl, ◌≡◌}
use bitswash.Wx.{WxText, FileConfig}
use bitswash.Settings.Reading.{Reader, IsInt, read_bool}
use bitswash.Settings.Restored.Written.{Written, int_field, bool_field, old_bool}
use bitswash.Settings.Protocol.{Protocol, load_protocol}
use bitswash.Settings.File.{Settings, entries}

-- The values that the fields' types have.
pub record ProtocolFits (p : Protocol) : Type 0 where
  pub max_active_seeds : IsInt p.max_active_seeds
  pub enabled_protocols : IsInt p.enabled_protocols
  pub choking_algorithm : IsInt p.choking_algorithm
  pub seed_choking_algorithm : IsInt p.seed_choking_algorithm

-- What a `Load` makes of the fields that it does not give back as they were.
unfoldable pub restored_protocol : (f : FileConfig) (old : Reader) → Protocol → Protocol
restored_protocol f old p = record p {
  anonymous_mode = read_bool f old "/Session/anonymous_mode" false;
  super_seeding = read_bool f old "/Session/super_seeding" false;
  single_instance = read_bool f old "/Config/single_instance" true;
}

module _ (w : WxText) (f : FileConfig) {old : Reader} {read : Reader} (s : Settings w)
    (h : Written w f old (entries w f s) read) where
  pub load_protocol-written :
      ProtocolFits s.protocol → load_protocol w f read ≡ restored_protocol f old s.protocol
  unfolding load_protocol restored_protocol entries
  load_protocol-written fits = λ i. record {
    useoscache = bool_field h "/Session/use_oscache" true s.protocol.useoscache refl i;
    max_active_seeds =
        int_field h "/Session/active_seeds" (negsuc 0) s.protocol.max_active_seeds
          fits.max_active_seeds refl i;
    enabled_protocols =
        int_field h "/Session/enabled_protocols" (pos 0) s.protocol.enabled_protocols
          fits.enabled_protocols refl i;
    ignore_slow_torrents =
        bool_field h "/Session/dont_count_slow_torrents" false s.protocol.ignore_slow_torrents refl
          i;
    rate_limit_ip_overhead =
        bool_field h "/Session/rate_limit_ip_overhead" true s.protocol.rate_limit_ip_overhead refl
          i;
    prefer_udp_trackers =
        bool_field h "/Session/prefer_udp_trackers" true s.protocol.prefer_udp_trackers refl i;
    choking_algorithm =
        int_field h "/Session/choking_algorithm" (pos 0) s.protocol.choking_algorithm
          fits.choking_algorithm refl i;
    seed_choking_algorithm =
        int_field h "/Session/seed_choking_algorithm" (pos 0) s.protocol.seed_choking_algorithm
          fits.seed_choking_algorithm refl i;
    allow_multiple_connections_per_ip =
        bool_field h "/Session/allow_multiple_connections_per_ip" false
          s.protocol.allow_multiple_connections_per_ip refl i;
    rate_limit_peers_on_lan =
        bool_field h "/Session/rate_limit_peers_on_lan" false s.protocol.rate_limit_peers_on_lan
          refl i;
    rate_limit_utp = bool_field h "/Session/rate_limit_utp" false s.protocol.rate_limit_utp refl i;
    anonymous_mode = old_bool h "/Session/anonymous_mode" false refl i;
    super_seeding = old_bool h "/Session/super_seeding" false refl i;
    single_instance = old_bool h "/Config/single_instance" true refl i;
  }
