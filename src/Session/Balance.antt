-- ===== src/Session/Balance.antt =====
-- The loops of the scheduler that start and queue torrents touch the torrents that they are to
-- touch, and no others.
pub mod Limit
pub mod Collecting
pub mod Surveying
use bitswash.Prelude.{
  ℕ, zero, suc, ◌≤◌, ◌<◌, List, [], ◌∷◌, some, true, false, ◌≡◌, ◌≢◌, refl, sym, ap, ◌∙◌, subst,
  arith, get_elem?,
}
use bitswash.Torrent.{TorrentState, is_started}
use bitswash.LibTorrent.{World}
use bitswash.Session.{Session}
use bitswash.Session.Stopping.{queue_torrent}
use bitswash.Session.Scheduler.{start_queued, queue_extra}
use bitswash.Session.Frame.{Local, start_torrent-Local, queue_torrent-Local}
use bitswash.Session.Index.Loading.{AreDistinct}
use bitswash.Session.Lifecycle.{start_torrent-started, queue_torrent_state-state}
use bitswash.Session.Frame.{state_of}

-- No torrent stands twice in the list.
abbrev pub AreApart : List ℕ → Type 0
AreApart rs = (i j r : ℕ) → get_elem? rs i ≡ some r → get_elem? rs j ≡ some r → i ≡ j

abbrev pub IsAbsent : ℕ → List ℕ → Type 0
IsAbsent q rs = (k : ℕ) → get_elem? rs k ≢ some q

tail-AreApart : (r : ℕ) (rs : List ℕ) → AreApart (r ∷ rs) → AreApart rs
tail-AreApart r rs a i j q e d = omega (arith, a (suc i) (suc j) q e d)

head-IsAbsent : (r : ℕ) (rs : List ℕ) → AreApart (r ∷ rs) → IsAbsent r rs
head-IsAbsent r rs a k e = absurd (omega (arith, a 0 (suc k) r refl e))

head-differs : (r q k : ℕ) (rs : List ℕ) → AreApart (r ∷ rs) → get_elem? rs k ≡ some q → r ≢ q
head-differs r q k rs a e d = head-IsAbsent r rs a k (e ∙ ap some (sym d))

-- The first `n` torrents of the list have the property, the rest and all others are unchanged.
pub record Treated (P : TorrentState → Type 0) (n : ℕ) (rs : List ℕ) (s t : Session) : Type 0 where
  pub treated : (k r : ℕ) → get_elem? rs k ≡ some r → k < n → P (state_of t r)
  pub passed : (k r : ℕ) → get_elem? rs k ≡ some r → n ≤ k → t.store r ≡ s.store r
  pub absent : (q : ℕ) → IsAbsent q rs → t.store q ≡ s.store q

module _ {P : TorrentState → Type 0} where
  Treated-none : {rs : List ℕ} {s : Session} → Treated P 0 rs s s
  Treated-none = record {
    treated = λ k r e l. absurd (omega arith);
    passed = λ k r e l. refl;
    absent = λ q e. refl;
  }

  Treated-nil : {n : ℕ} {s : Session} → Treated P n [] s s
  Treated-nil = record {
    treated = λ k r e l. absurd (ground (arith, e));
    passed = λ k r e l. refl;
    absent = λ q e. refl;
  }

  -- A step that treats the first torrent, before steps on the rest of the list.
  Treated-cons :
      {n r : ℕ} {rs : List ℕ} {s t u : Session}
      → AreApart (r ∷ rs)
      → Local r s t
      → P (state_of t r)
      → Treated P n rs t u
      → Treated P (suc n) (r ∷ rs) s u
  Treated-cons {n} {r} {rs} {s} {t} {u} a l p rest = record {
    treated = treated;
    passed = passed;
    absent = λ q b. rest.absent q (λ k. b (suc k)) ∙ l.others q (λ e. b 0 (ap some e));
  }
    where
      treated : (k q : ℕ) → get_elem? (r ∷ rs) k ≡ some q → k < suc n → P (state_of u q)
      treated zero q e m =
          let same : r ≡ q = ground (arith, e) in
          subst (λ x. P (state_of u x)) same
            (subst (λ x. P x.config.torrent_state) (sym (rest.absent r (head-IsAbsent r rs a))) p)
      treated (suc k) q e m = rest.treated k q e (omega arith)

      passed : (k q : ℕ) → get_elem? (r ∷ rs) k ≡ some q → suc n ≤ k → u.store q ≡ s.store q
      passed zero q e m = absurd (omega arith)
      passed (suc k) q e m =
          rest.passed k q e (omega arith) ∙ l.others q (head-differs r q k rs a e)

-- Where no torrent stands twice in the list, the loop of `CheckQueueItem` that starts queued
-- torrents leaves each of the first `free` ones in the state `start` or `force_start`, and
-- changes no other torrent, neither of the list nor outside it.
pub start_queued-Treated :
    (w : World) (free : ℕ) (rs : List ℕ) (s : Session)
    → AreApart rs
    → Treated (λ z. is_started z ≡ true) free rs s (start_queued w free rs s)
unfolding start_queued
start_queued-Treated w zero rs s a = Treated-none
start_queued-Treated w (suc free) [] s a = Treated-nil
start_queued-Treated w (suc free) (r ∷ rs) s a =
    Treated-cons a (start_torrent-Local w false r s) (start_torrent-started w false r s)
      (start_queued-Treated w free rs _ (tail-AreApart r rs a))

-- None of the first `n` torrents is just being added.
abbrev pub AreSettled : ℕ → List ℕ → Session → Type 0
AreSettled n rs s =
    (i r : ℕ) → get_elem? rs i ≡ some r → i < n → s.queue_torrent_set (s.store r).hash ≡ false

pub AreDistinct-AreApart : (rs : List ℕ) (s : Session) → AreDistinct rs s → AreApart rs
AreDistinct-AreApart rs s h i j r e d = h i j r r e d refl

queue_torrent-state :
    (w : World) (r : ℕ) (s : Session) → state_of (queue_torrent w r s) r ≡ TorrentState.queue
unfolding queue_torrent
queue_torrent-state w r s = queue_torrent_state-state w TorrentState.queue r s

-- Where the torrents of the list have different hashes and none of the first `extra` ones is just
-- being added, the loop of `CheckQueueItem` that queues what runs beyond the limit leaves each of
-- the first `extra` ones of the list in the state `queue`, and changes no other torrent, neither
-- of the list nor outside it.
pub queue_extra-Treated :
    (w : World) (extra : ℕ) (rs : List ℕ) (s : Session)
    → AreDistinct rs s
    → AreSettled extra rs s
    → Treated (λ z. z ≡ TorrentState.queue) extra rs s (queue_extra w extra rs s)
unfolding queue_extra
queue_extra-Treated w zero rs s h a = Treated-none
queue_extra-Treated w (suc extra) [] s h a = Treated-nil
queue_extra-Treated w (suc extra) (r ∷ rs) s h a =
    let l = queue_torrent-Local w r s in
    rw (a 0 r refl (omega arith), queue_extra)
      (Treated-cons (AreDistinct-AreApart (r ∷ rs) s h) l (queue_torrent-state w r s) (
        queue_extra-Treated w extra rs (queue_torrent w r s)
          (λ i j p q e d f.
            omega
              (arith, h (suc i) (suc j) p q e d (sym (l.keeps.hashes p) ∙ f ∙ l.keeps.hashes q)))
          (λ i p e m.
            ap (queue_torrent w r s).queue_torrent_set (l.keeps.hashes p)
            ∙ l.queued (s.store p).hash (λ d. absurd (omega (arith, h 0 (suc i) r p refl e d)))
            ∙ a (suc i) p e (omega arith))))
