-- ===== src/Session/Tests/Queue.antt =====
-- Instances of the theorems on the queue and its index.
use bitswash.Prelude.{none, true, ◌≡◌, refl, arith, Returns}
use bitswash.Session.{Session}
use bitswash.Session.Index.{IsIndexed}
use bitswash.Session.Index.Operations.{move_torrent_top-IsIndexed, move_torrent_bottom-IsIndexed}
use bitswash.Session.Index.Removal.{Removed, remove_torrent-Removed}
use bitswash.Session.Index.Alerts.{handle_alert-IsIndexed}
use bitswash.Session.Index.Numbering.{Saved, save_all_torrent-Saved}
use bitswash.Session.Index.Loading.{restore_queue-IsIndexed}
use bitswash.Session.Order.{
  Raised, Appended, move_torrent_up-Raised, move_torrent_bottom-fault, add_torrent-Appended,
}
use bitswash.Session.Moving.{move_torrent_up, move_torrent_top, move_torrent_bottom}
use bitswash.Session.Membership.{add_torrent, remove_torrent}
use bitswash.Session.Alerts.{Alert, handle_alert}
use bitswash.Session.Loading.{restore_queue, save_all_torrent}
use bitswash.Session.Tests.{world, session, stale}
use bitswash.Session.Tests.Facts.{
  session-IsIndexed, session-priorities, session-IndicesInRange, session-ButLast,
  session-AreDistinct, found, stale-found, stale-bottom, not_found,
}

remove_torrent-Removed_example :
    Returns (Removed 1 20 session) (remove_torrent world true 1 session)
remove_torrent-Removed_example =
    remove_torrent-Removed world true 1 1 session-IsIndexed (found 1 1 refl) session-priorities

move_torrent_top-IsIndexed_example : Returns IsIndexed (move_torrent_top world 2 session)
move_torrent_top-IsIndexed_example = move_torrent_top-IsIndexed world 2 session-IsIndexed

move_torrent_bottom-IsIndexed_example : Returns IsIndexed (move_torrent_bottom world 0 session)
move_torrent_bottom-IsIndexed_example =
    move_torrent_bottom-IsIndexed world 0 session-IsIndexed session-IndicesInRange

handle_alert-IsIndexed_example : Returns IsIndexed (handle_alert world (Alert.added 20 20) session)
handle_alert-IsIndexed_example =
    handle_alert-IsIndexed world (Alert.added 20 20) session-IsIndexed session-ButLast

save_all_torrent-Saved_example : Returns (Saved session) (save_all_torrent world session)
save_all_torrent-Saved_example = save_all_torrent-Saved world session-IsIndexed

restore_queue-IsIndexed_example :
    Returns IsIndexed (restore_queue world session.torrent_queue session)
restore_queue-IsIndexed_example =
    restore_queue-IsIndexed world session.torrent_queue session session-AreDistinct

move_torrent_bottom-fault_example : move_torrent_bottom world 1 stale ≡ none
move_torrent_bottom-fault_example =
    move_torrent_bottom-fault world 1 0 2 stale stale-found (omega arith) refl stale-bottom
      (omega arith)

move_torrent_up-Raised_example : Returns (Raised 1 0 0 session) (move_torrent_up world 1 session)
move_torrent_up-Raised_example =
    move_torrent_up-Raised world 1 0 0 (found 1 1 refl) (omega arith) refl refl
      (λ e. ground (arith, e))

add_torrent-Appended_example :
    (t : Session) × (add_torrent world 3 session ≡ (true, t)) × Appended 3 session t
add_torrent-Appended_example = add_torrent-Appended world 3 session not_found
