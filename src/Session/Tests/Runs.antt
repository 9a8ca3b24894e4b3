-- ===== src/Session/Tests/Runs.antt =====
-- Instances of the theorems on states, the scheduler, previews and the thread.
use bitswash.Prelude.{[], ◌∷◌, some, true, ◌≡◌, ◌≤◌, ◌<◌, ◌+◌, arith, get_elem?, Returns, refl}
use bitswash.Torrent.{is_started}
use bitswash.Session.Index.{IsIndexed}
use bitswash.Session.Index.Duplication.{Duplicated, overwrite-not_IsIndexed}
use bitswash.Session.Balance.{Treated, AreDistinct-AreApart, start_queued-Treated}
use bitswash.Session.Preview.{first_piece, last_piece, raise_ends}
use bitswash.Session.Preview.Bounds.{preview_pieces-in_range, get_elem?-raise_ends}
use bitswash.Session.Lifecycle.{
  SameActivity, recheck_torrent-SameActivity, start_torrent-started, stop_torrent_or_throw-state,
  StopsOrThrows,
}
use bitswash.Session.Frame.{state_of}
use bitswash.Session.Scheduler.{check_queue_item, start_queued}
use bitswash.Session.Alerts.{overwrite}
use bitswash.Session.Starting.{start_torrent, recheck_torrent}
use bitswash.Session.Stopping.{stop_torrent_or_throw}
use bitswash.LibTorrent.{World}
use bitswash.Session.Balance.Limit.{Limited}
use bitswash.Session.Balance.Surveying.{survey_of, check_queue_item-Limited}
use bitswash.Session.Tests.{film, world, session}
use bitswash.Session.Tests.Facts.{
  session-IsIndexed, session-AreDistinct, surveyed-over, surveyed-settled,
}

overwrite-not_IsIndexed_example :
    Returns (λ t. Duplicated 2 0 2 t × (¬ IsIndexed t)) (overwrite 2 0 2 session)
overwrite-not_IsIndexed_example =
    overwrite-not_IsIndexed 2 0 2 session (omega arith) (omega arith) (λ e. ground (arith, e))

start_torrent-started_example : is_started (state_of (start_torrent world true 1 session) 1) ≡ true
start_torrent-started_example = start_torrent-started world true 1 session

-- A world in which the handle cannot tell its status.
abbrev broken_world : World
broken_world = record world { status_throws = λ h n. true }

stop_torrent_throws : (stop_torrent_or_throw broken_world 1 session).0 ≡ true
unfolding stop_torrent_or_throw
stop_torrent_throws = refl

stop_torrent_or_throw-state_example :
    StopsOrThrows broken_world 1 session (stop_torrent_or_throw broken_world 1 session)
stop_torrent_or_throw-state_example = stop_torrent_or_throw-state broken_world 1 session

recheck_torrent-SameActivity_example :
    SameActivity (state_of session 1) (state_of (recheck_torrent world 1 session) 1)
recheck_torrent-SameActivity_example = recheck_torrent-SameActivity world 1 session

start_queued-Treated_example :
    Treated
      (λ z. is_started z ≡ true)
      2
      session.torrent_queue
      session
      (start_queued world 2 session.torrent_queue session)
start_queued-Treated_example =
    start_queued-Treated world 2 session.torrent_queue session
      (AreDistinct-AreApart session.torrent_queue session session-AreDistinct)

preview_pieces-in_range_example :
    (first_piece 16 film + 0 ≤ last_piece 16 film) × (last_piece 16 film < 7)
preview_pieces-in_range_example =
    preview_pieces-in_range 16 7 0 film (omega arith) (omega arith) (omega arith)

get_elem?-raise_ends_example :
    get_elem? (raise_ends 2 0 6 (4 ∷ 4 ∷ 4 ∷ 4 ∷ 4 ∷ 4 ∷ 4 ∷ [])) 5 ≡ some 7
get_elem?-raise_ends_example =
    get_elem?-raise_ends 2 0 6 5 (4 ∷ 4 ∷ 4 ∷ 4 ∷ 4 ∷ 4 ∷ 4 ∷ []) (omega arith) (omega arith)
      (omega arith)

check_queue_item-Limited_example :
    Limited 1 (survey_of world session).start_torrents (check_queue_item world session)
check_queue_item-Limited_example =
    check_queue_item-Limited world session session-IsIndexed surveyed-over surveyed-settled
