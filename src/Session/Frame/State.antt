-- ===== src/Session/Frame/State.antt =====
-- The steps that leave the state of a torrent alone.
use bitswash.Prelude.{
  ℕ, Option, none, some, Bool, true, false, ◌≡◌, refl, ◌∙◌, inl, inr, ◌==◌, if◌then◌else◌, ==_refl,
  pos, ltb_ℤ, Bool-cases,
}
use bitswash.Torrent.{TorrentConfig, TorrentInfo, TorrentState, clamp_uploads}
use bitswash.LibTorrent.{World, Effect, AddParams, async_add_torrent, TorrentStatus}
use bitswash.Session.{
  Session, emit, attempt, set_torrent, modify_config, set_torrent_state, set_stats, save,
  insert_queued,
}
use bitswash.Session.Adding.{
  async_add, add_torrent_to_session, add_magnet_uri_to_session, add_to_session, is_empty,
  magnet_params,
}
use bitswash.Session.Stopping.{queue_new}

abbrev pub state_of : Session → ℕ → TorrentState
state_of s r = (s.store r).config.torrent_state

-- The torrent's state is the same in both sessions.
pub record SameState (r : ℕ) (s t : Session) : Type 0 where
  pub same : state_of t r ≡ state_of s r

pub SameState-refl : {r : ℕ} {s : Session} → SameState r s s
SameState-refl = record { same = refl }

infixl 6 ◌⊳◌
pub ◌⊳◌ : {r : ℕ} {s t u : Session} → SameState r s t → SameState r t u → SameState r s u
k ⊳ l = record { same = l.same ∙ k.same }

pub SameState-if :
    {r : ℕ} {s t u : Session} (b : Bool)
    → SameState r s t
    → SameState r s u
    → SameState r s (if b then t else u)
SameState-if true k l = k
SameState-if false k l = l

pub emit-state : {r : ℕ} (e : Effect) {s : Session} → SameState r s (emit e s)
unfolding emit
emit-state e = record { same = refl }

pub attempt-state : {r : ℕ} (w : World) (e : Effect) (s : Session) → SameState r s (attempt w e s)
unfolding attempt
attempt-state w e s = SameState-if (w.throws s.history e) SameState-refl (emit-state e)

-- A write to the configuration that leaves the state alone.
pub modify_config-state :
    (r : ℕ) (f : TorrentConfig → TorrentConfig) (s : Session)
    → (f (s.store r).config).torrent_state ≡ state_of s r
    → SameState r s (modify_config r f s)
unfolding modify_config set_torrent
modify_config-state r f s e = record { same = rw (==_refl r, state_of) e }

pub set_torrent_state-state :
    (r : ℕ) (z : TorrentState) (s : Session) → state_of (set_torrent_state r z s) r ≡ z
unfolding set_torrent_state modify_config set_torrent
set_torrent_state-state r z s = rw (==_refl r, state_of) refl

pub clamp_uploads-state : (c : TorrentConfig) → (clamp_uploads c).torrent_state ≡ c.torrent_state
clamp_uploads-state c = elim (Bool-cases (ltb_ℤ c.torrent_max_uploads (pos 2))) [
  | inl e ↦ rw e refl
  | inr e ↦ rw e refl
]

pub save-state : (r : ℕ) (s : Session) → SameState r s (save r s)
unfolding save
save-state r s =
    modify_config-state r clamp_uploads s (clamp_uploads-state (s.store r).config) ⊳ emit-state _

pub async_add-state :
    {r : ℕ} (w : World) (h : ℕ) (p : AddParams) (s : Session) → SameState r s (async_add w h p s)
unfolding async_add emit insert_queued
async_add-state w h p s =
    SameState-if (w.throws s.history (async_add_torrent p)) SameState-refl (record { same = refl })

pub add_torrent_to_session-state :
    (w : World) (r : ℕ) (s : Session) → SameState r s (add_torrent_to_session w r s)
unfolding add_torrent_to_session
add_torrent_to_session-state w r s = async_add-state w _ _ s

pub add_magnet_uri_to_session-state :
    (w : World) (r : ℕ) (s : Session) → SameState r s (add_magnet_uri_to_session w r s)
unfolding add_magnet_uri_to_session
add_magnet_uri_to_session-state w r s =
    SameState-if (is_empty (s.store r).config.magnet_uri) SameState-refl
      (go (w.parse_magnet_uri (s.store r).config.magnet_uri))
  where
    go :
        (o : Option AddParams)
        → SameState r s (elim o [
          | none ↦ s
          | some p ↦
              if (s.store r).hash == 0
              then s
              else async_add w (s.store r).hash (magnet_params s.config (s.store r) p) s
        ])
    go none = SameState-refl
    go (some p) = SameState-if ((s.store r).hash == 0) SameState-refl (async_add-state w _ _ s)

pub add_to_session-state : (w : World) (r : ℕ) (s : Session) → SameState r s (add_to_session w r s)
unfolding add_to_session
add_to_session-state w r s = go (s.store r).info
  where
    go :
        (o : Option TorrentInfo)
        → SameState r s (elim o [
          | some i ↦ add_torrent_to_session w r s
          | none ↦ add_magnet_uri_to_session w r s
        ])
    go none = add_magnet_uri_to_session-state w r s
    go (some i) = add_torrent_to_session-state w r s

pub queue_new-state : (w : World) (r : ℕ) (s : Session) → SameState r s (queue_new w r s)
unfolding queue_new
queue_new-state w r s =
    SameState-if (s.queue_torrent_set (s.store r).hash) SameState-refl (add_to_session-state w r s)

pub set_stats-state : (r : ℕ) (st : TorrentStatus) (s : Session) → SameState r s (set_stats r st s)
unfolding set_stats
set_stats-state r st s = modify_config-state r _ s refl
