-- ===== src/Session/Lifecycle.antt =====
-- The states of a torrent: what each operation leaves in `torrent_state`.
use bitswash.Prelude.{
  ℕ, Option, none, some, Bool, true, false, ◌≡◌, refl, ap, not, ◌∙◌, ◌⊎◌, inl, inr, arith,
  if◌then◌else◌, Bool-cases,
}
use bitswash.Torrent.{TorrentState, is_started, is_active, is_force_start, is_pause}
use bitswash.LibTorrent.{World, remove_resume_file, graceful_pause}
use bitswash.Session.{Session, emit, set_torrent_state, set_stats}
use bitswash.Session.Stopping.{
  with_handle, stop_torrent, stop_torrent_or_throw, queue_new, queue_torrent_state, pause_torrent,
}
use bitswash.Session.Configuring.{is_unplaced}
use bitswash.Session.Starting.{mark_started, start_torrent, recheck_torrent, start_handle}
use bitswash.Session.Frame.{
  state_of, SameState, SameState-refl, SameState-if, emit-state, set_torrent_state-state,
  save-state, add_to_session-state, queue_new-state, set_stats-state, ◌⊳◌,
}

stop_torrent-state :
    (w : World) (r : ℕ) (s : Session) → state_of (stop_torrent w r s) r ≡ TorrentState.stop
unfolding stop_torrent
stop_torrent-state w r s =
    (save-state r _ ⊳ SameState-if _ (emit-state _) SameState-refl).same
    ∙ set_torrent_state-state r _ _

-- What is left of the state, by whether an exception has left `StopTorrent`.
abbrev pub state_after : Bool → TorrentState → TorrentState
state_after true z = z
state_after false z = TorrentState.stop

-- The torrent has a valid handle `n`, and `pause` or the `status` behind it throws.
abbrev pub MayThrow : World → ℕ → Session → Type 0
MayThrow w r s =
    (n : ℕ) × ((s.store r).handle ≡ some n)
    × (w.handle_is_valid s.history n ≡ true)
    × ((w.throws s.history (graceful_pause n) ≡ true)
        ⊎ (w.status_throws (emit (graceful_pause n) s).history n ≡ true))

abbrev pub StopsOrThrows : World → ℕ → Session → Bool × Session → Type 0
StopsOrThrows w r s p =
    (state_of p.1 r ≡ state_after p.0 (state_of s r)) × (p.0 ≡ true → MayThrow w r s)

-- Whatever the torrent's handle is and whatever libtorrent throws, `StopTorrent` leaves the
-- torrent stopped or an exception leaves it with the torrent's state as it was; and an exception
-- leaves it only where the handle is valid and `pause` or `status`, the calls before its `try`,
-- throws.
pub stop_torrent_or_throw-state :
    (w : World) (r : ℕ) (s : Session) → StopsOrThrows w r s (stop_torrent_or_throw w r s)
unfolding stop_torrent_or_throw
stop_torrent_or_throw-state w r s = go (s.store r).handle refl
  where
    choose :
        (b : Bool) (p q : Bool × Session)
        → (b ≡ true → StopsOrThrows w r s p)
        → (b ≡ false → StopsOrThrows w r s q)
        → StopsOrThrows w r s (if b then p else q)
    choose true p q h k = h refl
    choose false p q h k = k refl

    stopped : StopsOrThrows w r s (false, stop_torrent w r s)
    stopped = (stop_torrent-state w r s, λ e. absurd (ground (arith, e)))

    go :
        (o : Option ℕ)
        → (s.store r).handle ≡ o
        → StopsOrThrows w r s (elim o [
          | none ↦ (false, stop_torrent w r s)
          | some n ↦
              let paused = emit (graceful_pause n) s in
              if not (w.handle_is_valid s.history n)
              then (false, stop_torrent w r s)
              else if w.throws s.history (graceful_pause n)
              then (true, s)
              else if w.status_throws paused.history n
              then (true, paused)
              else (false, stop_torrent w r s)
        ])
    go none e = stopped
    go (some n) e =
        choose (not (w.handle_is_valid s.history n)) _ _ (λ _. stopped)
          λ valid.
            let is_valid : w.handle_is_valid s.history n ≡ true = ground (arith, valid) in
            choose (w.throws s.history (graceful_pause n)) _ _
              (λ x. (refl, λ _. (n, e, is_valid, inl x)))
              λ _.
                choose (w.status_throws (emit (graceful_pause n) s).history n) _ _
                  (λ x. ((emit-state (graceful_pause n)).same, λ _. (n, e, is_valid, inr x)))
                  λ _. stopped

-- `QueueTorrent` leaves the torrent in the state that it is asked for, on every branch.
pub queue_torrent_state-state :
    (w : World) (z : TorrentState) (r : ℕ) (s : Session)
    → state_of (queue_torrent_state w z r s) r ≡ z
unfolding queue_torrent_state
queue_torrent_state-state w z r s = (save-state r _ ⊳ go _ _).same ∙ set_torrent_state-state r z s
  where
    go :
        (t : Session) (h : Option ℕ)
        → SameState r t (elim h [
          | none ↦ queue_new w r t
          | some n ↦
              if w.handle_is_valid t.history n
              then emit (graceful_pause n) (set_stats r (w.handle_status t.history n) t)
              else queue_new w r t
        ])
    go t none = queue_new-state w r t
    go t (some n) =
        SameState-if (w.handle_is_valid t.history n) (set_stats-state r _ t ⊳ emit-state _)
          (queue_new-state w r t)

mark_started-started :
    (force : Bool) (r : ℕ) (s : Session) → is_started (state_of (mark_started force r s) r) ≡ true
unfolding mark_started
mark_started-started force r s = elim (Bool-cases (is_force_start (state_of s r))) [
  | inl e ↦ rw e (forced (state_of s r) e)
  | inr e ↦
      rw
        (
          e,
          (save-state r (set_torrent_state r (chosen force) s)).same,
          set_torrent_state-state r (chosen force) s,
        )
        (started force)
]
  where
    chosen : Bool → TorrentState
    chosen b = if b then TorrentState.force_start else TorrentState.start

    forced : (z : TorrentState) → is_force_start z ≡ true → is_started z ≡ true
    forced TorrentState.force_start e = refl
    forced TorrentState.start e = ground (arith, e)
    forced TorrentState.stop e = ground (arith, e)
    forced TorrentState.queue e = ground (arith, e)
    forced TorrentState.pause e = ground (arith, e)

    started : (b : Bool) → is_started (chosen b) ≡ true
    started true = refl
    started false = refl

-- `StartTorrent` leaves the torrent in the state `start` or `force_start` on every branch, also
-- where the move of its data stops it on the way.
pub start_torrent-started :
    (w : World) (force : Bool) (r : ℕ) (s : Session)
    → is_started (state_of (start_torrent w force r s) r) ≡ true
unfolding start_torrent
start_torrent-started w force r s =
    let t = mark_started force r (with_handle w r (λ n. start_handle w force n r) s) in
    ap is_started
      (SameState-if (is_unplaced w r t) (add_to_session-state w r t)
        (SameState-refl {r = r} {s = t})).same
    ∙ mark_started-started force r _

is_started-not_pause : (z : TorrentState) → is_started z ≡ true → is_pause z ≡ false
is_started-not_pause TorrentState.start e = refl
is_started-not_pause TorrentState.force_start e = refl
is_started-not_pause TorrentState.stop e = refl
is_started-not_pause TorrentState.queue e = refl
is_started-not_pause TorrentState.pause e = ground (arith, e)

-- Two states agree on whether the torrent runs, and on whether it is paused.
pub record SameActivity (z y : TorrentState) : Type 0 where
  pub started : is_started y ≡ is_started z
  pub paused : is_pause y ≡ is_pause z

SameActivity-eq : {z y : TorrentState} → y ≡ z → SameActivity z y
SameActivity-eq e = record { started = ap is_started e; paused = ap is_pause e }

-- The last step of `RecheckTorrent`, which brings the torrent back.
brought_back : World → TorrentState → ℕ → Session → Session
brought_back w z r s =
    if is_started z
    then start_torrent w (is_force_start z) r s
    else if is_pause z
    then pause_torrent w r s
    else s

brought_back-SameActivity :
    (w : World) (z : TorrentState) (r : ℕ) (s : Session)
    → (is_active z ≡ false → state_of s r ≡ z)
    → SameActivity z (state_of (brought_back w z r s) r)
unfolding brought_back pause_torrent
brought_back-SameActivity w TorrentState.stop r s h = SameActivity-eq (h refl)
brought_back-SameActivity w TorrentState.queue r s h = SameActivity-eq (h refl)
brought_back-SameActivity w TorrentState.pause r s h =
    SameActivity-eq (queue_torrent_state-state w TorrentState.pause r s)
brought_back-SameActivity w TorrentState.start r s h =
    let e = start_torrent-started w false r s in
    record { started = e; paused = is_started-not_pause _ e }
brought_back-SameActivity w TorrentState.force_start r s h =
    let e = start_torrent-started w true r s in
    record { started = e; paused = is_started-not_pause _ e }

-- `RecheckTorrent`, which stops a torrent that runs or is paused, brings it back: it is in a
-- started state afterwards if and only if it was before, and paused if and only if it was.
pub recheck_torrent-SameActivity :
    (w : World) (r : ℕ) (s : Session)
    → SameActivity (state_of s r) (state_of (recheck_torrent w r s) r)
unfolding recheck_torrent brought_back
recheck_torrent-SameActivity w r s =
    let s1 : Session = if is_active (state_of s r) then stop_torrent w r s else s in
    elim (Bool-cases (s.store r).isvalid) [
      | inr e ↦ rw (e, recheck_torrent) (SameActivity-eq refl)
      | inl e ↦
          rw (e, recheck_torrent)
            (brought_back-SameActivity w (state_of s r) r _ λ a. (dropped s1).same ∙ untouched a)
    ]
  where
    dropped :
        (t : Session)
        → SameState r t (
            if w.resume_file_exists t.history (t.store r).hash
            then emit (remove_resume_file (t.store r).hash) t
            else t)
    dropped t =
        SameState-if (w.resume_file_exists t.history (t.store r).hash) (emit-state _) SameState-refl

    untouched :
        is_active (state_of s r) ≡ false
        → state_of (if is_active (state_of s r) then stop_torrent w r s else s) r ≡ state_of s r
    untouched a = rw a refl
