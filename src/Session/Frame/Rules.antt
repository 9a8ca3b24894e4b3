-- ===== src/Session/Frame/Rules.antt =====
-- The relation, how it composes, and the small steps of a session.
use bitswash.Prelude.{
  ℕ, sym, ◌≢◌, Option, none, some, Bool, true, false, ◌≡◌, refl, ◌∙◌, arith, if◌then◌else◌,
}
use bitswash.Torrent.{TorrentConfig, clamp_uploads}
use bitswash.LibTorrent.{World, Effect}
use bitswash.Session.{Session, emit, attempt, set_torrent, modify_config, save, insert_queued}
use bitswash.Session.Stopping.{with_handle}

pub record Keeps (s t : Session) : Type 0 where
  pub queue : t.torrent_queue ≡ s.torrent_queue
  pub map : t.running_torrent_map ≡ s.running_torrent_map
  pub hashes : (r : ℕ) → (t.store r).hash ≡ (s.store r).hash

pub Keeps-refl : {s : Session} → Keeps s s
Keeps-refl = record { queue = refl; map = refl; hashes = λ r. refl }

infixl 6 ◌▸◌
pub ◌▸◌ : {s t u : Session} → Keeps s t → Keeps t u → Keeps s u
k ▸ l = record {
  queue = l.queue ∙ k.queue;
  map = l.map ∙ k.map;
  hashes = λ r. l.hashes r ∙ k.hashes r;
}

pub Keeps-if : {s t u : Session} (b : Bool) → Keeps s t → Keeps s u → Keeps s (if b then t else u)
Keeps-if true k l = k
Keeps-if false k l = l

pub emit-Keeps : (e : Effect) {s : Session} → Keeps s (emit e s)
unfolding emit
emit-Keeps e = record { queue = refl; map = refl; hashes = λ r. refl }

pub insert_queued-Keeps : (h : ℕ) {s : Session} → Keeps s (insert_queued h s)
unfolding insert_queued
insert_queued-Keeps h = record { queue = refl; map = refl; hashes = λ r. refl }

pub modify_config-Keeps :
    (r : ℕ) (f : TorrentConfig → TorrentConfig) (s : Session) → Keeps s (modify_config r f s)
unfolding modify_config set_torrent
modify_config-Keeps r f s = record { queue = refl; map = refl; hashes = λ q. ground arith }

pub save-Keeps : (r : ℕ) (s : Session) → Keeps s (save r s)
unfolding save
save-Keeps r s = modify_config-Keeps r clamp_uploads s ▸ emit-Keeps _

pub with_handle-Keeps :
    (w : World) (r : ℕ) (f : ℕ → Session → Session) (s : Session)
    → ((n : ℕ) (t : Session) → Keeps t (f n t))
    → Keeps s (with_handle w r f s)
unfolding with_handle
with_handle-Keeps w r f s keep = go (s.store r).handle
  where
    go :
        (h : Option ℕ)
        → Keeps s
            (elim h [ none ↦ s | some n ↦ if w.handle_is_valid s.history n then f n s else s ])
    go none = Keeps-refl
    go (some n) = Keeps-if (w.handle_is_valid s.history n) (keep n s) Keeps-refl

-- A step on the torrent at `r`: it keeps the queue and the map, and of the other torrents, and the
-- other hashes in `m_queue_torrent_set`, it changes none.
pub record Local (r : ℕ) (s t : Session) : Type 0 where
  pub keeps : Keeps s t
  pub others : (q : ℕ) → r ≢ q → t.store q ≡ s.store q
  pub queued : (h : ℕ) → (s.store r).hash ≢ h → t.queue_torrent_set h ≡ s.queue_torrent_set h
  pub config : t.config ≡ s.config

pub Local-refl : {r : ℕ} {s : Session} → Local r s s
Local-refl = record {
  keeps = Keeps-refl;
  others = λ q d. refl;
  queued = λ h d. refl;
  config = refl;
}

infixl 6 ◌▹◌
pub ◌▹◌ : {r : ℕ} {s t u : Session} → Local r s t → Local r t u → Local r s u
◌▹◌ {r} k l = record {
  keeps = k.keeps ▸ l.keeps;
  others = λ q d. l.others q d ∙ k.others q d;
  queued = λ h d. l.queued h (λ e. d (sym (k.keeps.hashes r) ∙ e)) ∙ k.queued h d;
  config = l.config ∙ k.config;
}

pub Local-if :
    {r : ℕ} {s t u : Session} (b : Bool)
    → Local r s t
    → Local r s u
    → Local r s (if b then t else u)
Local-if true k l = k
Local-if false k l = l

pub Local-if_snd :
    {r : ℕ} {s : Session} (b : Bool) (p q : Bool × Session)
    → Local r s p.1
    → Local r s q.1
    → Local r s (if b then p else q).1
Local-if_snd true p q k l = k
Local-if_snd false p q k l = l

pub emit-Local : {r : ℕ} (e : Effect) {s : Session} → Local r s (emit e s)
unfolding emit
emit-Local e = record {
  keeps = emit-Keeps e;
  others = λ q d. refl;
  queued = λ h d. refl;
  config = refl;
}

pub attempt-Local : {r : ℕ} (w : World) (e : Effect) (s : Session) → Local r s (attempt w e s)
unfolding attempt
attempt-Local w e s = Local-if (w.throws s.history e) Local-refl (emit-Local e)

pub insert_queued-Local :
    {r : ℕ} (h : ℕ) {s : Session} → (s.store r).hash ≡ h → Local r s (insert_queued h s)
unfolding insert_queued
insert_queued-Local h e = record {
  keeps = insert_queued-Keeps h;
  others = λ q d. refl;
  queued = λ k d. ground (arith, e);
  config = refl;
}

pub modify_config-Local :
    (r : ℕ) (f : TorrentConfig → TorrentConfig) (s : Session) → Local r s (modify_config r f s)
unfolding modify_config set_torrent
modify_config-Local r f s = record {
  keeps = modify_config-Keeps r f s;
  others = λ q d. ground arith;
  queued = λ h d. refl;
  config = refl;
}

pub save-Local : (r : ℕ) (s : Session) → Local r s (save r s)
unfolding save
save-Local r s = modify_config-Local r clamp_uploads s ▹ emit-Local _

pub with_handle-Local :
    (w : World) (r : ℕ) (f : ℕ → Session → Session) (s : Session)
    → ((n : ℕ) (t : Session) → Local r t (f n t))
    → Local r s (with_handle w r f s)
unfolding with_handle
with_handle-Local w r f s keep = go (s.store r).handle
  where
    go :
        (h : Option ℕ)
        → Local r s
            (elim h [ none ↦ s | some n ↦ if w.handle_is_valid s.history n then f n s else s ])
    go none = Local-refl
    go (some n) = Local-if (w.handle_is_valid s.history n) (keep n s) Local-refl
