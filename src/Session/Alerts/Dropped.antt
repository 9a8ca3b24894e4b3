-- ===== src/Session/Alerts/Dropped.antt =====
-- `HandleTorrentAlerts` (src/bittorrentsession.cpp) returns from its loop at an alert with statistics.
use bitswash.Prelude.{List, [], ◌∷◌, ◌++◌, some, ◌>>=◌, ◌≡◌, refl, if◌then◌else◌}
use bitswash.LibTorrent.{World}
use bitswash.Session.{Session}
use bitswash.Session.Alerts.{Alert, is_last, handle_alert, handle_alerts}

-- The alerts behind one with statistics, among those that `HandleTorrentAlerts` has popped, have
-- no effect: the session is what the alerts before it alone make of it.
pub handle_alerts-stats :
    (w : World) (before rest : List Alert) (s : Session)
    → handle_alerts w (before ++ Alert.stats ∷ rest) s ≡ handle_alerts w before s
unfolding handle_alerts handle_alert
handle_alerts-stats w [] rest s = refl
handle_alerts-stats w (a ∷ before) rest s = λ i. handle_alert w a s >>= λ s1.
    let t = handle_alerts-stats w before rest s1 i in if is_last a then some s1 else t
