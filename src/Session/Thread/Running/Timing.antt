-- ===== src/Session/Thread/Running/Timing.antt =====
-- When the rounds of the session's thread check the queue (src/bittorrentsession.cpp).
use bitswash.Prelude.{
  ℕ, ◌+◌, ◌-◌, ◌<◌, ◌≤◌, List, [], ◌∷◌, ◌++◌, none, some, Option, Bool, sym, leb, true, false, ◌||◌,
  ◌≡◌, refl, subst, ◌⊎◌, inl, inr, arith, if◌then◌else◌,
}
use bitswash.LibTorrent.{World}
use bitswash.Wx.{All}
use bitswash.Session.Scheduler.{check_queue_item}
use bitswash.Session.Thread.{Thread, is_queue_update, is_due, check_if, entry_round}
use bitswash.Session.Thread.Running.{Round, entry_loop}
use bitswash.Session.Thread.Running.Ending.{IsQuiet, receive-quiet}

-- A round less than 5 seconds after `start`, which receives nothing and does not end the thread.
pub record IsIdle (start : ℕ) (r : Round) : Type 0 where
  pub nothing : r.input.received ≡ none
  pub early : r.input.time_before < start + 5
  pub goes_on : r.is_destroyed || r.is_broken ≡ false

-- The thread right after a check of the queue in a round.
abbrev pub checked_in : World → Round → Thread → Thread
checked_in w r t = record {
  session = check_queue_item w t.session;
  check_now = false;
  start_time = r.input.time_after;
}

is_due-idle :
    (r : Round) (t : Thread)
    → t.check_now ≡ false
    → IsIdle t.start_time r
    → is_due r.input t ≡ false
unfolding is_due
is_due-idle r t pending idle = rw (pending, idle.nothing) (late_idle idle.early)
  where
    late_idle :
        r.input.time_before < t.start_time + 5 → leb 5 (r.input.time_before - t.start_time) ≡ false
    late_idle e = ground arith

is_due-due :
    (r : Round) (t : Thread)
    → (is_queue_update r.input.received ≡ true) ⊎ (t.start_time + 5 ≤ r.input.time_before)
    → is_due r.input t ≡ true
unfolding is_due
is_due-due r t (inl e) = ground (arith, e)
is_due-due r t (inr l) = ground (arith, l)

module _ (w : World) where
  entry_round-idle :
      (r : Round) (t : Thread)
      → t.check_now ≡ false
      → IsIdle t.start_time r
      → entry_round w r.input t ≡ some t
  unfolding entry_round check_if
  entry_round-idle r t pending idle =
      rw
        (
          receive-quiet w r.input.received t.session (subst IsQuiet (sym idle.nothing) tt),
          is_due-idle r t pending idle,
        )
        (λ i. some (record t { session = t.session; check_now = sym pending i }))

  entry_round-due :
      (r : Round) (t : Thread)
      → IsQuiet r.input.received
      → (is_queue_update r.input.received ≡ true) ⊎ (t.start_time + 5 ≤ r.input.time_before)
      → entry_round w r.input t ≡ some (checked_in w r t)
  unfolding entry_round check_if
  entry_round-due r t quiet due =
      rw (receive-quiet w r.input.received t.session quiet, is_due-due r t due) refl

  ended :
      (b : Bool) (t : Thread)
      → if◌then◌else◌ {A = Option (Bool × Thread)} b (some (true, t)) (some (false, t))
        ≡ some (b, t)
  ended true t = refl
  ended false t = refl

  -- Where no check of the queue is pending, any number of rounds of the session's thread that
  -- receive nothing less than 5 seconds after the last check, and do not end the thread, leave it
  -- as it is; and the first round that receives a queue update, or comes 5 seconds or more after
  -- the last check and receives no alert, calls `CheckQueueItem` on that session and takes the
  -- time after that as the time of the last check. The loop has then ended if that round ends it.
  pub entry_loop-checked_in :
      (rs : List Round) (r : Round) (t : Thread)
      → t.check_now ≡ false
      → All (IsIdle t.start_time) rs
      → IsQuiet r.input.received
      → (is_queue_update r.input.received ≡ true) ⊎ (t.start_time + 5 ≤ r.input.time_before)
      → entry_loop w (rs ++ r ∷ []) t ≡ some (r.is_destroyed || r.is_broken, checked_in w r t)
  unfolding entry_loop
  entry_loop-checked_in [] r t pending idle quiet due =
      rw (entry_round-due r t quiet due) (ended (r.is_destroyed || r.is_broken) _)
  entry_loop-checked_in (x ∷ rs) r t pending (i, is) quiet due =
      rw (entry_round-idle x t pending i, i.goes_on)
        (entry_loop-checked_in rs r t pending is quiet due)
