-- ===== src/Session/Scanning/Repeated.antt =====
-- The map of the queue is built only after the scan, so that the scan finds no torrent again: a
-- torrent that has a file and a magnet URI, or two files, stands in the queue twice
-- (src/bittorrentsession.cpp).
use bitswash.Prelude.{
  append_assoc, ℕ, List, [], ◌∷◌, ◌++◌, Option, none, some, Bool, false, ◌≡◌, ◌≢◌, refl, ap, ◌∙◌,
  arith, Option-cases, inl, inr,
}
use bitswash.Torrent.{Torrent, TorrentConfig, TorrentInfo}
use bitswash.LibTorrent.{World}
use bitswash.Session.{
  Session, set_torrent, set_queue, find_torrent_by_hash, insert_running, set_running,
}
use bitswash.Session.Frame.{Keeps, add_magnet_uri_to_session-Local}
use bitswash.Session.Adding.{add_magnet_uri_to_session}
use bitswash.Session.Membership.{enqueue}
use bitswash.Session.Loading.{MagnetUri, magnet_torrent, load_magnet_uri}
use bitswash.Session.Scanning.{TorrentSource, scan_file}
use bitswash.Session.Scanning.Pushed.{IsPushed, ne-==, scan_file-IsPushed}

insert_running-queue :
    (h i : ℕ) (s : Session) → (insert_running h i s).torrent_queue ≡ s.torrent_queue
unfolding insert_running set_running
insert_running-queue h i s = elim (Option-cases (s.running_torrent_map h)) [
  | inl e ↦ rw (e, insert_running) refl
  | inr (j, e) ↦ rw (e, insert_running) refl
]

insert_running-store : (h i : ℕ) (s : Session) → (insert_running h i s).store ≡ s.store
unfolding insert_running set_running
insert_running-store h i s = elim (Option-cases (s.running_torrent_map h)) [
  | inl e ↦ rw (e, insert_running) refl
  | inr (j, e) ↦ rw (e, insert_running) refl
]

-- `LoadMagnetUri` of a hash that neither the map nor the set of waiting torrents has.
load_magnet_uri-IsPushed :
    (w : World) (r : ℕ) (c : TorrentConfig) (u : MagnetUri) (s : Session)
    → u.uri_hash ≢ 0
    → s.running_torrent_map u.uri_hash ≡ none
    → s.queue_torrent_set u.uri_hash ≡ false
    → IsPushed r u.uri_hash s (load_magnet_uri w r c u s)
unfolding load_magnet_uri find_torrent_by_hash
load_magnet_uri-IsPushed w r c u s nonzero new idle = rw loaded pushed
  where
    t : Session
    t = set_torrent r (magnet_torrent w s.config u c) s

    x : Session
    x = add_magnet_uri_to_session w r t

    k : Keeps t x
    k = (add_magnet_uri_to_session-Local w r t).keeps

    loaded : load_magnet_uri w r c u s ≡ enqueue r x
    loaded =
        rw (new, load_magnet_uri, find_torrent_by_hash) (rw (idle, ne-== u.uri_hash nonzero) refl)

    own : (x.store r).hash ≡ u.uri_hash
    own = k.hashes r ∙ (unfold set_torrent magnet_torrent in ground arith)

    pushed : IsPushed r u.uri_hash s (enqueue r x)
    pushed =
        unfold enqueue set_queue in
        record {
          queue =
              insert_running-queue _ _ (set_queue (x.torrent_queue ++ r ∷ []) x)
              ∙ ap (λ (q : List ℕ). q ++ r ∷ []) (k.queue ∙ (unfold set_torrent in refl));
          hash =
              ap (λ (m : ℕ → Torrent). (m r).hash)
                (insert_running-store _ _ (set_queue (x.torrent_queue ++ r ∷ []) x))
              ∙ own;
          others = λ q n.
              ap (λ (m : ℕ → Torrent). (m q).hash)
                (insert_running-store _ _ (set_queue (x.torrent_queue ++ r ∷ []) x))
              ∙ k.hashes q
              ∙ (unfold set_torrent in ground arith);
        }

-- Two positions of the queue hold torrents of the hash `h`.
pub record IsTwice (h r q : ℕ) (s t : Session) : Type 0 where
  pub queue : t.torrent_queue ≡ s.torrent_queue ++ r ∷ q ∷ []
  pub first : (t.store r).hash ≡ h
  pub second : (t.store q).hash ≡ h

-- Where a torrent's hash is not 0, in the map of the queue, or among those just being added, and
-- a torrent file with that hash is scanned and then a magnet URI with it is loaded, at two
-- addresses, the queue has both behind what it had.
pub load_magnet_uri-scan_file :
    (w : World) (f : TorrentSource) (info : TorrentInfo) (r : ℕ) (c : TorrentConfig) (u : MagnetUri)
    (s : Session)
    → f.parsed ≡ some (info, u.uri_hash)
    → u.uri_hash ≢ 0
    → f.address ≢ r
    → s.running_torrent_map u.uri_hash ≡ none
    → s.queue_torrent_set u.uri_hash ≡ false
    → IsTwice u.uri_hash f.address r s (load_magnet_uri w r c u (scan_file f s))
load_magnet_uri-scan_file w f info r c u s e nonzero apart new idle =
    let (pushed, kept) = scan_file-IsPushed f info u.uri_hash s e nonzero new in
    let loaded =
      load_magnet_uri-IsPushed w r c u (scan_file f s) nonzero
        (ap (λ (m : ℕ → Option ℕ). m u.uri_hash) kept.map ∙ new)
        (ap (λ (m : ℕ → Bool). m u.uri_hash) kept.waiting ∙ idle) in
    record {
      queue =
          loaded.queue
          ∙ ap (λ (q : List ℕ). q ++ r ∷ []) pushed.queue
          ∙ append_assoc s.torrent_queue (f.address ∷ []) (r ∷ []);
      first = loaded.others f.address apart ∙ pushed.hash;
      second = loaded.hash;
    }
