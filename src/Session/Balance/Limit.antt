-- ===== src/Session/Balance/Limit.antt =====
-- The limit on running torrents: of the torrents that count as started, as many as the limit allows
-- stay started, and the others are queued.
use bitswash.Prelude.{
  ℕ, zero, suc, ◌-◌, ◌≤◌, ◌<◌, List, [], ◌∷◌, some, Bool, true, false, ◌≡◌, ◌≢◌, refl, sym, ap, ◌∙◌,
  arith, ltb, ◌==◌, if◌then◌else◌, length, get_elem?, get_elem?-append, get_elem?-lt, length-append,
  Bool-cases, inl, inr,
}
use mathlib.Core.List.{reverse, reverse-cons}
use bitswash.Torrent.{TorrentState, is_started}
use bitswash.LibTorrent.{World}
use bitswash.Session.{Session, handle_valid}
use bitswash.Session.Starting.{start_torrent}
use bitswash.Session.Scheduler.{Survey, start_missing, balance}
use bitswash.Session.Frame.{
  Keeps, Keeps-refl, ◌▸◌, Local, Local-refl, Local-if, start_torrent-Local, state_of,
}
use bitswash.Session.Index.Loading.{AreDistinct}
use bitswash.Session.Lifecycle.{start_torrent-started}
use bitswash.Session.Balance.{queue_extra-Treated}

length-reverse : (xs : List ℕ) → length (reverse xs) ≡ length xs
length-reverse [] = refl
length-reverse (x ∷ xs) =
    rw (reverse-cons x xs) (omega (arith, length-append (reverse xs) (x ∷ []), length-reverse xs))

get_elem?-reverse :
    (xs : List ℕ) (k : ℕ)
    → k < length xs
    → get_elem? (reverse xs) k ≡ get_elem? xs (length xs - 1 - k)
get_elem?-reverse [] k h = absurd (omega arith)
get_elem?-reverse (x ∷ xs) k h = elim (Bool-cases (k == length xs)) [
  | inl e ↦
      let first : suc (length xs) - 1 - k ≡ 0 = ground (arith, e) in
      rw (reverse-cons x xs, get_elem?-append (reverse xs) x k, length-reverse xs, e, first) refl
  | inr e ↦
      let later : suc (length xs) - 1 - k ≡ suc (length xs - 1 - k) = ground (arith, e, h) in
      rw (reverse-cons x xs, get_elem?-append (reverse xs) x k, length-reverse xs, e, later)
        (get_elem?-reverse xs k (ground (arith, e, h)))
]

-- The torrents of the list are started; from position `n` on they are unchanged, also in
-- `m_queue_torrent_set`.
record Checked (n : ℕ) (rs : List ℕ) (s t : Session) : Type 0 where
  keeps : Keeps s t
  started : (k r : ℕ) → get_elem? rs k ≡ some r → is_started (state_of t r) ≡ true
  passed : (k r : ℕ) → get_elem? rs k ≡ some r → n ≤ k → t.store r ≡ s.store r
  queued :
      (k r : ℕ)
      → get_elem? rs k ≡ some r
      → n ≤ k
      → t.queue_torrent_set (s.store r).hash ≡ s.queue_torrent_set (s.store r).hash
  absent : (q : ℕ) → ((k : ℕ) → get_elem? rs k ≢ some q) → t.store q ≡ s.store q

Checked-none :
    {rs : List ℕ} {s : Session}
    → ((k r : ℕ) → get_elem? rs k ≡ some r → is_started (state_of s r) ≡ true)
    → Checked 0 rs s s
Checked-none h = record {
  keeps = Keeps-refl;
  started = h;
  passed = λ k r e l. refl;
  queued = λ k r e l. refl;
  absent = λ q a. refl;
}

Checked-nil : {n : ℕ} {s : Session} → Checked n [] s s
Checked-nil = record {
  keeps = Keeps-refl;
  started = λ k r e. absurd (ground (arith, e));
  passed = λ k r e l. refl;
  queued = λ k r e l. refl;
  absent = λ q a. refl;
}

Checked-cons :
    {n r : ℕ} {rs : List ℕ} {s t u : Session}
    → AreDistinct (r ∷ rs) s
    → Local r s t
    → is_started (state_of t r) ≡ true
    → Checked n rs t u
    → Checked (suc n) (r ∷ rs) s u
Checked-cons {n} {r} {rs} {s} {t} {u} a l p c = record {
  keeps = l.keeps ▸ c.keeps;
  started = started;
  passed = passed;
  queued = queued;
  absent = λ q b. c.absent q (λ k. b (suc k)) ∙ l.others q (λ e. b 0 (ap some e));
}
  where
    other : (k q : ℕ) → get_elem? rs k ≡ some q → r ≢ q
    other k q e d = absurd (omega (arith, a 0 (suc k) r q refl e (ap (λ x. (s.store x).hash) d)))

    started : (k q : ℕ) → get_elem? (r ∷ rs) k ≡ some q → is_started (state_of u q) ≡ true
    started zero q e =
        let same : q ≡ r = ground (arith, e) in
        rw same
          (ap (λ x. is_started x.config.torrent_state) (c.absent r (λ k d. other k r d refl)) ∙ p)
    started (suc k) q e = c.started k q e

    passed : (k q : ℕ) → get_elem? (r ∷ rs) k ≡ some q → suc n ≤ k → u.store q ≡ s.store q
    passed zero q e m = absurd (omega arith)
    passed (suc k) q e m = c.passed k q e (omega arith) ∙ l.others q (other k q e)

    queued :
        (k q : ℕ)
        → get_elem? (r ∷ rs) k ≡ some q
        → suc n ≤ k
        → u.queue_torrent_set (s.store q).hash ≡ s.queue_torrent_set (s.store q).hash
    queued zero q e m = absurd (omega arith)
    queued (suc k) q e m =
        ap u.queue_torrent_set (sym (l.keeps.hashes q))
        ∙ c.queued k q e (omega arith)
        ∙ ap t.queue_torrent_set (l.keeps.hashes q)
        ∙ l.queued (s.store q).hash (λ d. absurd (omega (arith, a 0 (suc k) r q refl e d)))

start_missing-Checked :
    (w : World) (n : ℕ) (rs : List ℕ) (s : Session)
    → AreDistinct rs s
    → ((k r : ℕ) → get_elem? rs k ≡ some r → is_started (state_of s r) ≡ true)
    → Checked n rs s (start_missing w n rs s)
unfolding start_missing
start_missing-Checked w zero rs s a h = Checked-none h
start_missing-Checked w (suc n) [] s a h = Checked-nil
start_missing-Checked w (suc n) (r ∷ rs) s a h = Checked-cons a l (first (handle_valid w r s)) (
    start_missing-Checked w n rs _
      (λ i j p q e d f.
        omega (arith, a (suc i) (suc j) p q e d (sym (l.keeps.hashes p) ∙ f ∙ l.keeps.hashes q)))
      (λ k q e.
        ap (λ x. is_started x.config.torrent_state)
          (l.others q
            (λ d. absurd (omega (arith, a 0 (suc k) r q refl e (ap (λ x. (s.store x).hash) d)))))
        ∙ h (suc k) q e))
  where
    l : Local r s (if handle_valid w r s then s else start_torrent w false r s)
    l = Local-if (handle_valid w r s) Local-refl (start_torrent-Local w false r s)

    first : (b : Bool) → is_started (state_of (if b then s else start_torrent w false r s) r) ≡ true
    first true = h 0 r refl
    first false = start_torrent-started w false r s

-- Where a position of the reversed list comes from, and where a position of the list goes.
from_reverse :
    (xs : List ℕ) (i r : ℕ)
    → get_elem? (reverse xs) i ≡ some r
    → get_elem? xs (length xs - 1 - i) ≡ some r
from_reverse xs i r e =
    sym (get_elem?-reverse xs i (omega (arith, get_elem?-lt (reverse xs) i r e, length-reverse xs)))
    ∙ e

to_reverse :
    (xs : List ℕ) (k r : ℕ)
    → get_elem? xs k ≡ some r
    → get_elem? (reverse xs) (length xs - 1 - k) ≡ some r
to_reverse xs k r e =
    let l = get_elem?-lt xs k r e in
    let back : length xs - 1 - (length xs - 1 - k) ≡ k = omega (arith, l) in
    get_elem?-reverse xs (length xs - 1 - k) (omega (arith, l)) ∙ ap (get_elem? xs) back ∙ e

reverse-AreDistinct :
    (xs : List ℕ) {s t : Session} → Keeps s t → AreDistinct xs s → AreDistinct (reverse xs) t
reverse-AreDistinct xs k a i j r q e d h = omega (
  arith,
  get_elem?-lt (reverse xs) i r e,
  get_elem?-lt (reverse xs) j q d,
  length-reverse xs,
  a _ _ r q (from_reverse xs i r e) (from_reverse xs j q d) (sym (k.hashes r) ∙ h ∙ k.hashes q),
)

-- Of the torrents of the list, those before position `m` are started, and the others are queued.
pub record Limited (m : ℕ) (rs : List ℕ) (t : Session) : Type 0 where
  pub running : (k r : ℕ) → get_elem? rs k ≡ some r → k < m → is_started (state_of t r) ≡ true
  pub waiting : (k r : ℕ) → get_elem? rs k ≡ some r → m ≤ k → state_of t r ≡ TorrentState.queue

-- When the survey of `CheckQueueItem` counts more torrents than the limit, all in the state
-- `start` or `force_start` and with different hashes, and none of those from the limit on is just
-- being added, then after the rest of the pass those before the limit are in the state `start` or
-- `force_start`, and all others of them are in the state `queue`.
pub balance-Limited :
    (w : World) (v : Survey)
    → v.session.config.max_start < length v.start_torrents
    → AreDistinct v.start_torrents v.session
    → ((k r : ℕ) → get_elem? v.start_torrents k ≡ some r → is_started (state_of v.session r) ≡ true)
    → ((k r : ℕ)
        → get_elem? v.start_torrents k ≡ some r
        → v.session.config.max_start ≤ k
        → v.session.queue_torrent_set (v.session.store r).hash ≡ false)
    → Limited v.session.config.max_start v.start_torrents (balance w v)
unfolding balance
balance-Limited w v o a h q =
    let m = v.session.config.max_start in
    let rs = v.start_torrents in
    let n = length rs in
    let over : ltb m n ≡ true = ground arith in
    let s1 = start_missing w m rs v.session in
    let c = start_missing-Checked w m rs v.session a h in
    let settled = λ (i r : ℕ) (e : get_elem? (reverse rs) i ≡ some r) (l : i < n - m).
      ap s1.queue_torrent_set (c.keeps.hashes r)
      ∙ c.queued (n - 1 - i) r (from_reverse rs i r e) (omega arith)
      ∙ q (n - 1 - i) r (from_reverse rs i r e) (omega arith) in
    let d =
      queue_extra-Treated w (n - m) (reverse rs) s1 (reverse-AreDistinct rs c.keeps a) settled in
    rw (over, balance)
      (record {
        running = λ k r e l.
            ap (λ x. is_started x.config.torrent_state)
              (d.passed (n - 1 - k) r (to_reverse rs k r e)
                (omega (arith, l, get_elem?-lt rs k r e)))
            ∙ c.started k r e;
        waiting = λ k r e l.
            d.treated (n - 1 - k) r (to_reverse rs k r e) (omega (arith, l, get_elem?-lt rs k r e));
      })
