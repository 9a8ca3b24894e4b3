-- ===== src/Session/Balance/Collecting.antt =====
-- How the survey of the scheduler grows: a torrent is passed over, or collected.
use bitswash.Prelude.{
  ℕ, suc, List, [], ◌∷◌, ◌++◌, Option, some, none, Bool, true, false, ◌≡◌, ◌≢◌, refl, sym, ap, ◌∙◌,
  arith, ◌==◌, if◌then◌else◌, length, get_elem?, get_elem?-append, Bool-cases, ◌⊎◌, inl, inr, eqb_ℤ,
  half_ℤ,
}
use bitswash.Torrent.{is_started}
use bitswash.LibTorrent.{World, TorrentStatus, set_max_connections}
use bitswash.Session.{Session, emit}
use bitswash.Session.Stopping.{with_handle}
use bitswash.Session.Scheduler.{Survey, status_of, is_complete, halve_connections}
use bitswash.Session.Frame.{
  Local, Local-refl, emit-Local, state_of, SameState, SameState-refl, emit-state,
}
use bitswash.Session.Index.Loading.{AreDistinct}

-- A step on the torrent at `r` that leaves its state alone.
pub record Quiet (r : ℕ) (s t : Session) : Type 0 where
  pub local : Local r s t
  pub state : SameState r s t

pub Quiet-refl : {r : ℕ} {s : Session} → Quiet r s s
Quiet-refl = record { local = Local-refl; state = SameState-refl }

pub Quiet-if :
    {r : ℕ} {s t u : Session} (b : Bool)
    → Quiet r s t
    → Quiet r s u
    → Quiet r s (if b then t else u)
Quiet-if true k l = k
Quiet-if false k l = l

pub with_handle-Quiet :
    (w : World) (r : ℕ) (f : ℕ → Session → Session) (s : Session)
    → ((n : ℕ) → Quiet r s (f n s))
    → Quiet r s (with_handle w r f s)
unfolding with_handle
with_handle-Quiet w r f s keep = go (s.store r).handle
  where
    go :
        (h : Option ℕ)
        → Quiet r s
            (elim h [ none ↦ s | some n ↦ if w.handle_is_valid s.history n then f n s else s ])
    go none = Quiet-refl
    go (some n) = Quiet-if (w.handle_is_valid s.history n) (keep n) Quiet-refl

pub halve_connections-Quiet :
    (w : World) (r : ℕ) (s : Session) → Quiet r s (halve_connections w r s)
unfolding halve_connections
halve_connections-Quiet w r s = go (status_of w r s)
  where
    go :
        (o : Option TorrentStatus)
        → Quiet r s (elim o [
          | none ↦ s
          | some st ↦
              let m = (s.store r).config.torrent_max_connections in
              if is_complete st
              then (with_handle w r
                  (λ n t.
                    if eqb_ℤ (w.handle_max_connections t.history n) m
                    then emit (set_max_connections n (half_ℤ m)) t
                    else t)
                  s)
              else s
        ])
    go none = Quiet-refl
    go (some st) =
        Quiet-if (is_complete st)
          (with_handle-Quiet w r _ s
            (λ n. Quiet-if _ (record { local = emit-Local _; state = emit-state _ }) Quiet-refl))
          Quiet-refl

-- The survey before the torrents of `rest`: those collected are started, and no hash stands twice
-- among them, or among them and `rest`.
pub record Collected (rest : List ℕ) (v : Survey) : Type 0 where
  pub started :
      (k r : ℕ) → get_elem? v.start_torrents k ≡ some r → is_started (state_of v.session r) ≡ true
  pub apart : AreDistinct v.start_torrents v.session
  pub ahead :
      (k i r q : ℕ)
      → get_elem? v.start_torrents k ≡ some r
      → get_elem? rest i ≡ some q
      → (v.session.store r).hash ≢ (v.session.store q).hash

-- A step on the next torrent, which is not collected.
pub Collected-skip :
    {r : ℕ} {rest : List ℕ} {v u : Survey}
    → Collected (r ∷ rest) v
    → Local r v.session u.session
    → u.start_torrents ≡ v.start_torrents
    → Collected rest u
Collected-skip {r} {rest} {v} {u} c l e = record {
  started = λ k q d.
      ap (λ t. is_started t.config.torrent_state)
        (l.others q
          (λ f. c.ahead k 0 q r (old k q d) refl (ap (λ x. (v.session.store x).hash) (sym f))))
      ∙ c.started k q (old k q d);
  apart = λ i j q p d f h.
      c.apart i j q p (old i q d) (old j p f) (sym (l.keeps.hashes q) ∙ h ∙ l.keeps.hashes p);
  ahead = λ k i q p d f h.
      c.ahead k (suc i) q p (old k q d) f (sym (l.keeps.hashes q) ∙ h ∙ l.keeps.hashes p);
}
  where
    old : (k q : ℕ) → get_elem? u.start_torrents k ≡ some q → get_elem? v.start_torrents k ≡ some q
    old k q d = ap (λ xs. get_elem? xs k) (sym e) ∙ d

-- The next torrent is collected: it is in the state `start`, and its hash stands at no position of
-- `rest`.
pub Collected-take :
    {r : ℕ} {rest : List ℕ} {v u : Survey}
    → Collected (r ∷ rest) v
    → Quiet r v.session u.session
    → u.start_torrents ≡ v.start_torrents ++ r ∷ []
    → is_started (state_of v.session r) ≡ true
    → ((i q : ℕ) → get_elem? rest i ≡ some q → (v.session.store r).hash ≢ (v.session.store q).hash)
    → Collected rest u
Collected-take {r} {rest} {v} {u} c l e z a = record {
  started = λ k q d. elim (found k q d) [
    | inl x ↦
        ap (λ t. is_started t.config.torrent_state)
          (l.local.others q
            (λ f. c.ahead k 0 q r x refl (ap (λ y. (v.session.store y).hash) (sym f))))
        ∙ c.started k q x
    | inr (x, y) ↦ rw y (ap is_started l.state.same ∙ z)
  ];
  apart = λ i j q p d f h.
      let same = sym (l.local.keeps.hashes q) ∙ h ∙ l.local.keeps.hashes p in
      apart i j q p same (found i q d) (found j p f);
  ahead = λ k i q p d f h.
      let same = sym (l.local.keeps.hashes q) ∙ h ∙ l.local.keeps.hashes p in
      elim (found k q d) [
        | inl x ↦ c.ahead k (suc i) q p x f same
        | inr (x, y) ↦ a i p f (ap (λ n. (v.session.store n).hash) (sym y) ∙ same)
      ];
}
  where
    found :
        (k q : ℕ)
        → get_elem? u.start_torrents k ≡ some q
        → (get_elem? v.start_torrents k ≡ some q) ⊎ ((k ≡ length v.start_torrents) × (q ≡ r))
    found k q d =
        let at =
          sym (get_elem?-append v.start_torrents r k) ∙ ap (λ xs. get_elem? xs k) (sym e) ∙ d in
        elim (Bool-cases (k == length v.start_torrents)) [
          | inl x ↦ inr (ground (arith, x), ground (arith, x, at))
          | inr x ↦ inl (ground (arith, x, at))
        ]

    apart :
        (i j q p : ℕ)
        → (v.session.store q).hash ≡ (v.session.store p).hash
        → ((get_elem? v.start_torrents i ≡ some q) ⊎ ((i ≡ length v.start_torrents) × (q ≡ r)))
        → ((get_elem? v.start_torrents j ≡ some p) ⊎ ((j ≡ length v.start_torrents) × (p ≡ r)))
        → i ≡ j
    apart i j q p h (inl x) (inl y) = c.apart i j q p x y h
    apart i j q p h (inl x) (inr (y, n)) =
        absurd (c.ahead i 0 q r x refl (h ∙ ap (λ m. (v.session.store m).hash) n))
    apart i j q p h (inr (x, n)) (inl y) =
        absurd (c.ahead j 0 p r y refl (sym h ∙ ap (λ m. (v.session.store m).hash) n))
    apart i j q p h (inr (x, n)) (inr (y, m)) = x ∙ sym y
