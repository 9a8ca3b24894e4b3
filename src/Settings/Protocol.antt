-- ===== src/Settings/Protocol.antt =====
-- The section `Session` of `Configuration::Load` and `Save` (src/configuration.cpp), second part.
-- `anonymous_mode`, `super_seeding` and the section `Config`'s `single_instance` are read and not
-- written.
use bitswash.Prelude.{ℤ, pos, negsuc, List, [], Bool, true, false, ◌∷◌}
use bitswash.Wx.{Entry, WxText, FileConfig}
use bitswash.Settings.Reading.{Reader, read_int, read_bool}

pub record Protocol : Type 0 where
  pub useoscache : Bool
  pub max_active_seeds : ℤ
  pub enabled_protocols : ℤ
  pub ignore_slow_torrents : Bool
  pub rate_limit_ip_overhead : Bool
  pub prefer_udp_trackers : Bool
  pub choking_algorithm : ℤ
  pub seed_choking_algorithm : ℤ
  pub allow_multiple_connections_per_ip : Bool
  pub rate_limit_peers_on_lan : Bool
  pub rate_limit_utp : Bool
  pub anonymous_mode : Bool
  pub super_seeding : Bool
  pub single_instance : Bool

module _ (w : WxText) (f : FileConfig) where
  -- What `Save` writes, in this order.
  abbrev pub protocol_entries : Protocol → List Entry
  protocol_entries p =
      ("/Session/use_oscache", f.print_bool p.useoscache)
      ∷ ("/Session/active_seeds", w.print p.max_active_seeds)
      ∷ ("/Session/enabled_protocols", w.print p.enabled_protocols)
      ∷ ("/Session/dont_count_slow_torrents", f.print_bool p.ignore_slow_torrents)
      ∷ ("/Session/rate_limit_ip_overhead", f.print_bool p.rate_limit_ip_overhead)
      ∷ ("/Session/prefer_udp_trackers", f.print_bool p.prefer_udp_trackers)
      ∷ ("/Session/choking_algorithm", w.print p.choking_algorithm)
      ∷ ("/Session/seed_choking_algorithm", w.print p.seed_choking_algorithm)
      ∷ (
        "/Session/allow_multiple_connections_per_ip",
        f.print_bool p.allow_multiple_connections_per_ip,
      )
      ∷ ("/Session/rate_limit_peers_on_lan", f.print_bool p.rate_limit_peers_on_lan)
      ∷ ("/Session/rate_limit_utp", f.print_bool p.rate_limit_utp)
      ∷ []

  unfoldable pub load_protocol : Reader → Protocol
  load_protocol read = record {
    useoscache = read_bool f read "/Session/use_oscache" true;
    max_active_seeds = read_int w read "/Session/active_seeds" (negsuc 0);
    enabled_protocols = read_int w read "/Session/enabled_protocols" (pos 0);
    ignore_slow_torrents = read_bool f read "/Session/dont_count_slow_torrents" false;
    rate_limit_ip_overhead = read_bool f read "/Session/rate_limit_ip_overhead" true;
    prefer_udp_trackers = read_bool f read "/Session/prefer_udp_trackers" true;
    choking_algorithm = read_int w read "/Session/choking_algorithm" (pos 0);
    seed_choking_algorithm = read_int w read "/Session/seed_choking_algorithm" (pos 0);
    allow_multiple_connections_per_ip =
        read_bool f read "/Session/allow_multiple_connections_per_ip" false;
    rate_limit_peers_on_lan = read_bool f read "/Session/rate_limit_peers_on_lan" false;
    rate_limit_utp = read_bool f read "/Session/rate_limit_utp" false;
    anonymous_mode = read_bool f read "/Session/anonymous_mode" false;
    super_seeding = read_bool f read "/Session/super_seeding" false;
    single_instance = read_bool f read "/Config/single_instance" true;
  }
