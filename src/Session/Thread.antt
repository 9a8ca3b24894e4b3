-- ===== src/Session/Thread.antt =====
-- The loop of the session's thread, `Entry` (src/bittorrentsession.cpp): it takes one message at a
-- time, and checks the queue when it is told to, or 5 seconds after it last did. Seconds are
-- numbers. How the thread starts and ends is in Running.
pub mod Running
use bitswash.Prelude.{
  ℕ, ◌-◌, List, Option, none, some, Bool, true, false, ◌||◌, leb, if◌then◌else◌, ◌>>=◌, ◌≡◌,
}
use bitswash.LibTorrent.{World}
use bitswash.Session.{Session}
use bitswash.Session.Alerts.{Alert, handle_alerts}
use bitswash.Session.Scheduler.{check_queue_item}

-- `bts_event`; an alert event is followed by the alerts that are then pending.
pub data Event : Type 0 where
  alert : List Alert → Event
  queue_update : Event

pub record Thread : Type 0 where
  pub session : Session
  pub check_now : Bool
  pub start_time : ℕ

-- What a round receives: an event, or none within a second, and the times before and after it
-- checks the queue.
pub record Input : Type 0 where
  pub received : Option Event
  pub time_before : ℕ
  pub time_after : ℕ

unfoldable pub receive : World → Option Event → Session → Option Session
receive w none s = some s
receive w (some (Event.alert as')) s = handle_alerts w as' s
receive w (some Event.queue_update) s = some s

abbrev pub is_queue_update : Option Event → Bool
is_queue_update (some Event.queue_update) = true
is_queue_update _ = false

-- `check_now` at the point where the round looks at it.
unfoldable pub is_due : Input → Thread → Bool
is_due i t = (t.check_now || is_queue_update i.received) || leb 5 (i.time_before - t.start_time)

unfoldable pub check_if : World → Bool → Input → Thread → Session → Thread
check_if w due i t s =
    if due
    then record { session = check_queue_item w s; check_now = false; start_time = i.time_after }
    else record t { session = s; check_now = false }

unfoldable pub entry_round : World → Input → Thread → Option Thread
entry_round w i t = receive w i.received t.session >>= λ s. some (check_if w (is_due i t) i t s)
