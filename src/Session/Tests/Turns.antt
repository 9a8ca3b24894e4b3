-- ===== src/Session/Tests/Turns.antt =====
-- Turns of the user interface and of the session's thread on the session of three torrents.
use bitswash.Prelude.{true, none, false, negsuc, [], ◌∷◌, pos, some, ◌≡◌, refl, Returns, inl, arith}
use bitswash.Torrent.{TorrentState}
use bitswash.Session.Scanning.{
  TorrentSource, scan_files, scan_file, scan_parsed, parse_torrent, load_lines, load_line,
}
use bitswash.Session.Thread.Running.{Round, entry, entry_loop}
use bitswash.Session.Thread.Running.Ending.{Ended, entry-Ended}
use bitswash.Session.Thread.Running.Timing.{checked_in, entry_loop-checked_in}
use bitswash.Session.Scheduler.{check_queue_item}
use bitswash.Session.Alerts.{Alert, handle_alerts}
use bitswash.Session.Alerts.Dropped.{handle_alerts-stats}
use bitswash.Session.Index.{IsIndexed}
use bitswash.Session.Requests.{Request, ask, check, take_turn}
use bitswash.Session.Requests.Interleaving.{begin, turn, Reached-take_turn}
use bitswash.Session.Tests.{world, session, thread, told, silent, torrent_config}
use bitswash.Session.Tests.Facts.{session-AreDistinct, session-IsIndexed}

checked : take_turn world check session ≡ some (check_queue_item world session)
unfolding take_turn
checked = refl

Reached-take_turn_example :
    IsIndexed (check_queue_item world session)
    × Returns IsIndexed
        (take_turn world (ask (Request.move_up (pos 1))) (check_queue_item world session))
Reached-take_turn_example =
    Reached-take_turn world session (check_queue_item world session) (ask (Request.move_up (pos 1)))
      session-IsIndexed (turn check begin tt checked) tt

-- The torrent that has been added does not get its handle.
handle_alerts-stats_example :
    handle_alerts world (Alert.paused 7 ∷ Alert.stats ∷ Alert.added 8 30 ∷ []) session
    ≡ handle_alerts world (Alert.paused 7 ∷ []) session
handle_alerts-stats_example =
    handle_alerts-stats world (Alert.paused 7 ∷ []) (Alert.added 8 30 ∷ []) session

-- A file that is no torrent, and a line that is no URI.
abbrev broken_file : TorrentSource
broken_file = record {
  address = 3;
  parsed = none;
  loaded = torrent_config (negsuc 0) TorrentState.stop;
}

abbrev waiting : Round
waiting = record { input = told; is_destroyed = false; is_broken = false }

abbrev last_round : Round
last_round = record { input = silent; is_destroyed = true; is_broken = false }

entry-Ended_example : Returns Ended (
    entry world
      (some (broken_file ∷ []))
      (none ∷ [])
      (λ s q. q)
      100
      (waiting ∷ last_round ∷ [])
      session)
unfolding scan_files scan_file scan_parsed parse_torrent load_lines load_line
entry-Ended_example =
    entry-Ended world (broken_file ∷ []) (none ∷ []) (λ s q. q) 100 (waiting ∷ []) last_round
      session session-AreDistinct (tt, tt) tt refl

-- Two seconds after the last check, nothing is received.
abbrev early : Round
early = record {
  input = record { received = none; time_before = 102; time_after = 102 };
  is_destroyed = false;
  is_broken = false;
}

entry_loop-checked_in_example :
    entry_loop world (early ∷ waiting ∷ []) thread ≡ some (false, checked_in world waiting thread)
entry_loop-checked_in_example =
    entry_loop-checked_in world (early ∷ []) waiting thread refl
      (record { nothing = refl; early = omega arith; goes_on = refl }, tt) tt (inl refl)
