-- ===== src/Session/Frame/Logging.antt =====
-- Steps that only act on the world: the store, the queue and its map stay as they are.
use bitswash.Prelude.{
  ℕ, String, List, [], ◌∷◌, Option, none, some, Bool, true, false, ◌≡◌, refl, ap, ◌∙◌, ◌&&◌, ◌==◌,
  if◌then◌else◌, ◌≤◌, length, arith, Returns, returns, ◌<>◌,
}
use bitswash.Torrent.{TorrentInfo, FileEntry, WebSeed, AnnounceEntry, file_none}
use bitswash.LibTorrent.{World, Effect}
use bitswash.Session.{Session, emit}
use bitswash.Session.Stopping.{with_handle}
use bitswash.Session.Membership.{
  remove_if, remove_saved_files, remove_data, remove_unselected, remove_placeholders, drop_handle,
  announce_removal, add_trackers, add_web_seeds, merge_torrent, merge_magnet_uri,
}
use bitswash.Session.Frame.Rules.{Keeps}

pub record Logs (s t : Session) : Type 0 where
  pub store : t.store ≡ s.store
  pub queue : t.torrent_queue ≡ s.torrent_queue
  pub map : t.running_torrent_map ≡ s.running_torrent_map

pub Logs-refl : {s : Session} → Logs s s
Logs-refl = record { store = refl; queue = refl; map = refl }

infixl 6 ◌⨟◌
pub ◌⨟◌ : {s t u : Session} → Logs s t → Logs t u → Logs s u
k ⨟ l = record { store = l.store ∙ k.store; queue = l.queue ∙ k.queue; map = l.map ∙ k.map }

pub Logs-Keeps : {s t : Session} → Logs s t → Keeps s t
Logs-Keeps k = record { queue = k.queue; map = k.map; hashes = λ r. ap (λ f. (f r).hash) k.store }

Logs-if : {s t u : Session} (b : Bool) → Logs s t → Logs s u → Logs s (if b then t else u)
Logs-if true k l = k
Logs-if false k l = l

emit-Logs : (e : Effect) {s : Session} → Logs s (emit e s)
unfolding emit
emit-Logs e = record { store = refl; queue = refl; map = refl }

remove_if-Logs : (b : Bool) (e : Effect) (s : Session) → Logs s (remove_if b e s)
unfolding remove_if
remove_if-Logs b e s = Logs-if b (emit-Logs e) Logs-refl

with_handle-Logs :
    (w : World) (r : ℕ) (f : ℕ → Session → Session) (s : Session)
    → ((n : ℕ) (t : Session) → Logs t (f n t))
    → Logs s (with_handle w r f s)
unfolding with_handle
with_handle-Logs w r f s keep = go (s.store r).handle
  where
    go :
        (h : Option ℕ)
        → Logs s (elim h [ none ↦ s | some n ↦ if w.handle_is_valid s.history n then f n s else s ])
    go none = Logs-refl
    go (some n) = Logs-if (w.handle_is_valid s.history n) (keep n s) Logs-refl

pub drop_handle-Logs :
    (w : World) (deletedata : Bool) (r : ℕ) (s : Session) → Logs s (drop_handle w deletedata r s)
unfolding drop_handle
drop_handle-Logs w deletedata r s = with_handle-Logs w r _ s (λ n t. emit-Logs _ ⨟ emit-Logs _)

pub remove_saved_files-Logs : (w : World) (h : ℕ) (s : Session) → Logs s (remove_saved_files w h s)
unfolding remove_saved_files
remove_saved_files-Logs w h s =
    remove_if-Logs _ _ s ⨟ remove_if-Logs _ _ _ ⨟ remove_if-Logs _ _ _ ⨟ remove_if-Logs _ _ _

pub remove_data-Logs : (w : World) (r : ℕ) (s : Session) → Logs s (remove_data w r s)
unfolding remove_data
remove_data-Logs w r s = Logs-if _ (remove_if-Logs _ _ s ⨟ emit-Logs _) (remove_if-Logs _ _ s)

pub announce_removal-Logs : (r : ℕ) (s : Session) → Logs s (announce_removal r s)
unfolding announce_removal
announce_removal-Logs r s = Logs-if _ (emit-Logs _) Logs-refl

pub remove_unselected-Logs :
    (w : World) (dir : String) (fs : List FileEntry) (ps : List ℕ) (s : Session)
    → length fs ≤ length ps
    → Returns (Logs s) (remove_unselected w dir fs ps s)
unfolding remove_unselected
remove_unselected-Logs w dir [] ps s h = returns Logs-refl
remove_unselected-Logs w dir (f ∷ fs) [] s h = absurd (omega arith)
remove_unselected-Logs w dir (f ∷ fs) (p ∷ ps) s h =
    let k = remove_if-Logs ((p == file_none) && w.file_exists s.history (dir <> f.path)) _ s in
    after k (remove_unselected-Logs w dir fs ps _ (omega arith))
  where
    after : {t : Session} {o : Option Session} → Logs s t → Returns (Logs t) o → Returns (Logs s) o
    after k (returns l) = returns (k ⨟ l)

-- Every file of the metadata has a priority, so the loop over them stays in range.
abbrev pub HasPriorities : Session → ℕ → Type 0
HasPriorities s r =
    (i : TorrentInfo)
    → (s.store r).info ≡ some i
    → i.info_is_valid ≡ true
    → length i.files ≤ length (s.store r).config.files_priority

pub remove_placeholders-Logs :
    (w : World) (r : ℕ) (s : Session)
    → HasPriorities s r
    → Returns (Logs s) (remove_placeholders w r s)
unfolding remove_placeholders
remove_placeholders-Logs w r s h = go (s.store r).info (λ i e. h i e)
  where
    check :
        (i : TorrentInfo) (b : Bool)
        → (b ≡ true → length i.files ≤ length (s.store r).config.files_priority)
        → Returns (Logs s) (
            if b
            then remove_unselected w
                (s.store r).config.download_path
                i.files
                (s.store r).config.files_priority
                s
            else some s)
    check i true k = remove_unselected-Logs w _ i.files _ s (k refl)
    check i false k = returns Logs-refl

    go :
        (o : Option TorrentInfo)
        → ((i : TorrentInfo)
            → o ≡ some i
            → i.info_is_valid ≡ true
            → length i.files ≤ length (s.store r).config.files_priority)
        → Returns (Logs s) (elim o [
          | none ↦ some s
          | some i ↦
              if i.info_is_valid
              then remove_unselected w
                  (s.store r).config.download_path
                  i.files
                  (s.store r).config.files_priority
                  s
              else some s
        ])
    go none k = returns Logs-refl
    go (some i) k = check i i.info_is_valid (k i refl)

add_trackers-Logs : (n : ℕ) (ts : List AnnounceEntry) (s : Session) → Logs s (add_trackers n ts s)
unfolding add_trackers
add_trackers-Logs n [] s = Logs-refl
add_trackers-Logs n (t ∷ ts) s = emit-Logs _ ⨟ add_trackers-Logs n ts _

add_web_seeds-Logs : (n : ℕ) (us : List WebSeed) (s : Session) → Logs s (add_web_seeds n us s)
unfolding add_web_seeds
add_web_seeds-Logs n [] s = Logs-refl
add_web_seeds-Logs n (WebSeed.url_seed u ∷ us) s = emit-Logs _ ⨟ add_web_seeds-Logs n us _
add_web_seeds-Logs n (WebSeed.http_seed u ∷ us) s = emit-Logs _ ⨟ add_web_seeds-Logs n us _
add_web_seeds-Logs n (WebSeed.other_seed u ∷ us) s = add_web_seeds-Logs n us s

pub merge_torrent-Logs :
    (w : World) (dst : ℕ) (i : TorrentInfo) (s : Session) → Logs s (merge_torrent w dst i s)
unfolding merge_torrent
merge_torrent-Logs w dst i s =
    with_handle-Logs w dst _ s (λ n t. add_trackers-Logs n _ t ⨟ add_web_seeds-Logs n _ _)

pub merge_magnet_uri-Logs :
    (w : World) (dst : ℕ) (ts us : List String) (s : Session)
    → Logs s (merge_magnet_uri w dst ts us s)
unfolding merge_magnet_uri
merge_magnet_uri-Logs w dst ts us s =
    with_handle-Logs w dst _ s (λ n t. add_trackers-Logs n _ t ⨟ add_web_seeds-Logs n _ _)
