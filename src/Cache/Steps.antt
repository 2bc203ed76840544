-- ===== src/Cache/Steps.antt =====
-- The operations of src/confab/CacheManager.cpp one after another.
use mathlib.Core.Path.{subst}
use sclork_tools.Prelude.{
  ℕ, ◌*◌, ◌<◌, Bytes, Bool, true, Option, none, some, ◌∷◌, ◌++◌, ◌≡◌, ◌≢◌, refl, sym, ap, ◌∙◌,
  arith, length, length-append,
}
use sclork_tools.Dict.{find, find-insert, nat_eq, bytes_eq}
use sclork_tools.Asset.Keys.{key_to_string}
use sclork_tools.Http.Pieces.{eq_self}
use sclork_tools.Http.Interfaces.{Base64, Verifiers, Network, Builder, Hash, AssetDataTables}
use sclork_tools.Cache.Queues.{Fresh}
use sclork_tools.Cache.Defs.{
  CacheManager, World, done, thrown, size_mod, track, check_cache, check_existing_entries,
}
use sclork_tools.Cache.Tracked.{IsTracked}
use sclork_tools.Cache.Entries.{IsDirectory}
use sclork_tools.Cache.Start.{check_existing_entries-Started}
use sclork_tools.Cache.Download.{download_path, download}
use sclork_tools.Cache.Kept.{Downloaded, download-Downloaded}
use sclork_tools.Cache.Lookup.{hit_path, Looked, check_cache-Looked}

slash : (a b c : Bytes) → a ++ b ++ c ≢ a ++ b'/' ∷ b ++ c
slash a b c h = omega (
  arith,
  ap length h,
  length-append (a ++ b) c,
  length-append a b,
  length-append (a ++ b'/' ∷ b) c,
  length-append a (b'/' ∷ b),
)

module _ (N : Network) (codec : Base64) (verifiers : Verifiers) (B : Builder) (H : Hash)
    (A : AssetDataTables) where
  open N use {Net}

  -- After a download, that gave a path, of a key that was not in the map, `checkCache` throws for
  -- that key, unless there was an entry at the path without the slash.
  pub check_cache-download :
      (key size chunks : ℕ) (ext : Bytes) (now later : ℕ) (net net' : Net) (w w' : World)
      (path : Bytes)
      → IsTracked w
      → Fresh (download_path N codec verifiers B H A w key ext) w.manager.time_queue
      → size < size_mod
      → find key w.manager.extension_map ≡ none
      → find (hit_path w key ext) w.disk ≡ none
      → download N codec verifiers B H A key size chunks ext true now net w
        ≡ done (net', w', some path)
      → check_cache key later w' ≡ thrown
  unfolding check_cache track download_path
  check_cache-download key size chunks ext now later net net' w w' path v fresh small miss absent
        e =
      let (p, same, v', frame, kept) =
        subst
          (Downloaded N codec verifiers B H A key size ext
            (download_path N codec verifiers B H A w key ext) now w)
          e
          (download-Downloaded N codec verifiers B H A key size chunks ext now net w v fresh
            small) in
      let mapped : find key w'.manager.extension_map ≡ some ext =
        ap (λ (m : CacheManager). find key m.extension_map) same
        ∙ find-insert key key ext w.manager.extension_map miss
        ∙ rw (eq_self key) refl in
      let gone : find (hit_path w' key ext) w'.disk ≡ none =
        ap (λ (m : CacheManager). find (m.cache_path ++ key_to_string key ++ ext) w'.disk) same
        ∙ frame (hit_path w key ext) (slash w.manager.cache_path (key_to_string key) ext)
        ∙ absent in
      rw (mapped, check_cache) (rw (gone, check_cache) refl)

  -- A step of the program: a lookup, a download to a path that is not in the queue, or the start.
  pub data Step (w : World) : World → Type 0 where
    looks :
        (key now : ℕ) (w' : World) (r : Option Bytes)
        → check_cache key now w ≡ done (w', r)
        → Step w w'
    downloads :
        (key size chunks : ℕ) (ext : Bytes) (now : ℕ) (net net' : Net) (w' : World)
        (r : Option Bytes)
        → Fresh (download_path N codec verifiers B H A w key ext) w.manager.time_queue
        → size < size_mod
        → download N codec verifiers B H A key size chunks ext true now net w ≡ done (net', w', r)
        → Step w w'
    starts :
        (fuel : ℕ) (validate : Bool) (w' : World)
        → IsDirectory w.disk
        → 2 * length w.disk < fuel
        → check_existing_entries H fuel validate w ≡ done w'
        → Step w w'

  pub data Reach (w : World) : World → Type 0 where
    here : Reach w w
    next : {u w' : World} → Reach w u → Step u w' → Reach w w'

  Step-IsTracked : {w w' : World} → Step w w' → IsTracked w → IsTracked w'
  Step-IsTracked {w} (looks key now w' none e) v =
      subst IsTracked (sym (subst (Looked key now w) e (check_cache-Looked key now w v)).0) v
  Step-IsTracked {w} (looks key now w' (some p) e) v =
      (subst (Looked key now w) e (check_cache-Looked key now w v)).0
  Step-IsTracked {w} (downloads key size chunks ext now net net' w' none fresh small e) v =
      (subst (Downloaded N codec verifiers B H A key size ext _ now w) e
        (download-Downloaded N codec verifiers B H A key size chunks ext now net w v fresh small)).1
  Step-IsTracked {w} (downloads key size chunks ext now net net' w' (some p) fresh small e) v =
      (subst (Downloaded N codec verifiers B H A key size ext _ now w) e
        (download-Downloaded N codec verifiers B H A key size chunks ext now net w v fresh small)).2
  Step-IsTracked {w} (starts fuel validate w' d enough e) v =
      let (u, ends, s) = check_existing_entries-Started H validate fuel w d enough in
      let both : done u ≡ done w' = sym ends ∙ e in
      let same : u ≡ w' = cc in subst IsTracked same s.tracked

  -- The paths in the queue are those of files, each once, and the size is the sum of theirs
  -- modulo 2^64, after any number of lookups, of downloads to paths that are not in the queue and
  -- can be opened, and of new starts, if it was so before.
  pub Reach-IsTracked : {w w' : World} → IsTracked w → Reach w w' → IsTracked w'
  Reach-IsTracked v here = v
  Reach-IsTracked v (next r s) = Step-IsTracked s (Reach-IsTracked v r)
