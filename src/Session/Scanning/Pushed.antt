-- ===== src/Session/Scanning/Pushed.antt =====
-- What the scan of a torrent file (`ScanTorrentsDirectory` of src/bittorrentsession.cpp) adds to the
-- queue.
use bitswash.Prelude.{
  ℕ, List, [], ◌∷◌, ◌++◌, Option, none, some, Bool, true, false, ◌==◌, if◌then◌else◌, ◌≡◌, ◌≢◌,
  refl, ap, ◌∙◌, arith, Option-cases, inl, inr,
}
use bitswash.Torrent.{is_queue, TorrentConfig, TorrentInfo}
use bitswash.Session.{
  Session, set_torrent, set_torrent_state, modify_config, set_queue, find_torrent_by_hash,
}
use bitswash.Session.Frame.{Keeps, Keeps-if, Keeps-refl, ◌▸◌, modify_config-Keeps}
use bitswash.Session.Loading.{update_torrent_file_size}
use bitswash.Session.Scanning.{
  TorrentSource, parse_torrent, parsed_torrent, with_trackers, wake, push_new, scan_parsed,
  scan_file,
}

-- `t` has one more torrent at the end of the queue, at the address `r` and with the hash `h`.
pub record IsPushed (r h : ℕ) (s t : Session) : Type 0 where
  pub queue : t.torrent_queue ≡ s.torrent_queue ++ r ∷ []
  pub hash : (t.store r).hash ≡ h
  pub others : (q : ℕ) → q ≢ r → (t.store q).hash ≡ (s.store q).hash

pub ne-== : (h : ℕ) → h ≢ 0 → (h == 0) ≡ false
ne-== h n = ground arith

-- What the scan of a file leaves alone.
pub record Untouched (s t : Session) : Type 0 where
  pub map : t.running_torrent_map ≡ s.running_torrent_map
  pub waiting : t.queue_torrent_set ≡ s.queue_torrent_set

Untouched-trans : {s t u : Session} → Untouched s t → Untouched t u → Untouched s u
Untouched-trans k l = record { map = l.map ∙ k.map; waiting = l.waiting ∙ k.waiting }

Untouched-if :
    {s t u : Session} (b : Bool) → Untouched s t → Untouched s u → Untouched s (if b then t else u)
Untouched-if true k l = k
Untouched-if false k l = l

modify_config-Untouched :
    (r : ℕ) (f : TorrentConfig → TorrentConfig) (s : Session) → Untouched s (modify_config r f s)
unfolding modify_config set_torrent
modify_config-Untouched r f s = record { map = refl; waiting = refl }

modify_config-isvalid :
    (r : ℕ) (f : TorrentConfig → TorrentConfig) (s : Session)
    → ((modify_config r f s).store r).isvalid ≡ (s.store r).isvalid
unfolding modify_config set_torrent
modify_config-isvalid r f s = ground arith

-- A property of all changes of a torrent's settings holds for the update of its sizes.
update_torrent_file_size-some :
    (P : Session → Type 0) (r : ℕ) (s : Session)
    → P s
    → ((f : TorrentConfig → TorrentConfig) → P (modify_config r f s))
    → P (update_torrent_file_size r s)
unfolding update_torrent_file_size
update_torrent_file_size-some P r s p k = elim (Option-cases (s.store r).info) [
  | inl e ↦ rw (e, update_torrent_file_size) p
  | inr (i, e) ↦ rw (e, update_torrent_file_size) (either i.info_is_valid (k _))
]
  where
    either : {t : Session} (b : Bool) → P t → P (if b then t else s)
    either true q = q
    either false q = p

module _ (f : TorrentSource) (info : TorrentInfo) (h : ℕ) (s : Session) where
  -- After `ParseTorrent`, and after a queued torrent is woken.
  placed : Session
  placed = set_torrent f.address (parsed_torrent info h (with_trackers info f.loaded) true) s

  sized : Session
  sized = update_torrent_file_size f.address placed

  woken : Session
  woken = wake f.address sized

  sized-Keeps : Keeps placed sized
  unfolding sized
  sized-Keeps =
      update_torrent_file_size-some (Keeps placed) f.address placed Keeps-refl
        (λ g. modify_config-Keeps f.address g placed)

  sized-isvalid : (sized.store f.address).isvalid ≡ true
  unfolding sized
  sized-isvalid =
      update_torrent_file_size-some (λ (t : Session). (t.store f.address).isvalid ≡ true) f.address
        placed placed-isvalid (λ g. modify_config-isvalid f.address g placed ∙ placed-isvalid)
    where
      placed-isvalid : (placed.store f.address).isvalid ≡ true
      placed-isvalid = unfold placed set_torrent parsed_torrent in ground arith

  woken-Keeps : Keeps placed woken
  unfolding woken wake set_torrent_state
  woken-Keeps = sized-Keeps ▸ Keeps-if _ (modify_config-Keeps f.address _ sized) Keeps-refl

  placed-Untouched : Untouched s placed
  unfolding placed set_torrent
  placed-Untouched = record { map = refl; waiting = refl }

  sized-Untouched : Untouched s sized
  unfolding sized
  sized-Untouched =
      update_torrent_file_size-some (Untouched s) f.address placed placed-Untouched
        (λ g. Untouched-trans placed-Untouched (modify_config-Untouched f.address g placed))

  woken-Untouched : Untouched s woken
  unfolding woken wake set_torrent_state
  woken-Untouched = Untouched-trans sized-Untouched (
      Untouched-if {u = sized} (is_queue (sized.store f.address).config.torrent_state)
        (modify_config-Untouched f.address _ sized) (record { map = refl; waiting = refl }))

  woken-hash : (woken.store f.address).hash ≡ h
  woken-hash = woken-Keeps.hashes f.address ∙ placed-hash
    where
      placed-hash : (placed.store f.address).hash ≡ h
      placed-hash = unfold placed set_torrent parsed_torrent in ground arith

  module _ (e : f.parsed ≡ some (info, h)) (nonzero : h ≢ 0)
      (new : s.running_torrent_map h ≡ none) where
    scan_file-eq : scan_file f s ≡ set_queue (woken.torrent_queue ++ f.address ∷ []) woken
    unfolding scan_file parse_torrent scan_parsed push_new
    scan_file-eq =
        ap (λ (p : Option ℕ × Session). scan_parsed p.0 p.1) parsed_eq ∙ valid_eq ∙ pushed_eq
      where
        missing : find_torrent_by_hash (woken.store f.address).hash woken ≡ none
        missing =
            unfold find_torrent_by_hash in
            (ap (λ (m : ℕ → Option ℕ). m (woken.store f.address).hash) woken-Untouched.map
              ∙ ap s.running_torrent_map woken-hash
              ∙ new)

        parsed_eq : parse_torrent f s ≡ (some f.address, sized)
        parsed_eq = rw (e, parse_torrent, ne-== h nonzero) (unfold sized placed in refl)

        valid_eq :
            (if (sized.store f.address).isvalid
              then push_new f.address (wake f.address sized)
              else sized)
            ≡ push_new f.address woken
        valid_eq = rw sized-isvalid (unfold woken in refl)

        pushed_eq :
            push_new f.address woken ≡ set_queue (woken.torrent_queue ++ f.address ∷ []) woken
        pushed_eq = rw (missing, push_new) refl

    pub scan_file-IsPushed : IsPushed f.address h s (scan_file f s) × Untouched s (scan_file f s)
    unfolding set_queue
    scan_file-IsPushed = rw scan_file-eq (
      record {
        queue = ap (λ (q : List ℕ). q ++ f.address ∷ []) (woken-Keeps.queue ∙ placed_queue);
        hash = woken-hash;
        others = λ q n. woken-Keeps.hashes q ∙ placed_other q n;
      },
      record { map = woken-Untouched.map; waiting = woken-Untouched.waiting },
    )
      where
        placed_queue : placed.torrent_queue ≡ s.torrent_queue
        placed_queue = unfold placed set_torrent in refl

        placed_other : (q : ℕ) → q ≢ f.address → (placed.store q).hash ≡ (s.store q).hash
        placed_other q n = unfold placed set_torrent in ground arith
