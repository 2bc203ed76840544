-- ===== src/Cache/Lookup.antt =====
-- `CacheManager::checkCache` of src/confab/CacheManager.cpp, and how its operations follow one another.
use sclork_tools.Prelude.{
  ℕ, Bytes, Bool, Option, none, some, List, [], ◌∷◌, ◌++◌, ◌≡◌, inl, inr, refl, sym, ap, ◌∙◌, arith,
  Bool-cases, Option-cases, length,
}
use sclork_tools.Database.Interfaces.{beq_iff}
use sclork_tools.Dict.{find, assign, find-assign, nat_eq, bytes_eq}
use sclork_tools.Asset.Keys.{key_to_string}
use sclork_tools.Cache.Disk.{Node, file, other, file_size}
use sclork_tools.Cache.TimeQueue.{TimePath}
use sclork_tools.Cache.Queues.{All-map, total}
use sclork_tools.Cache.Defs.{World, Run, done, thrown, undefined, running, check_cache}
use sclork_tools.Cache.Tracked.{IsFile, IsTracked, find-assign_self, file_size_there, file_size_eq}

-- A path that the map gives.
abbrev pub hit_path : World → ℕ → Bytes → Bytes
hit_path w key ext = w.manager.cache_path ++ key_to_string key ++ ext

-- The write time of a file is set.
module _ (w : World) (path : Bytes) (time now : ℕ) (readable : Bool) (contents : Bytes)
    (there : find path w.disk ≡ some (file time readable contents)) where
  abbrev touched : World
  touched = record w { disk = assign path (file now readable contents) w.disk }

  touched-IsFile : (p : Bytes) → IsFile w.disk p → IsFile touched.disk p
  touched-IsFile p (t, r, c, e, l) = elim (Bool-cases (bytes_eq.same path p)) [
    | inl same ↦
        let here : path ≡ p = (beq_iff path p).0 same in
        let old : some (file t r c) ≡ some (file time readable contents) =
          sym e ∙ ap (λ q. find q w.disk) (sym here) ∙ there in
        let bytes : c ≡ contents = cc in
        (
          now,
          readable,
          contents,
          ground (arith, find-assign path p (file now readable contents) w.disk),
          omega (arith, ap length bytes),
        )
    | inr differs ↦
        (t, r, c, ground (arith, find-assign path p (file now readable contents) w.disk), l)
  ]

  touched_size : (p : Bytes) → file_size p touched.disk ≡ file_size p w.disk
  touched_size p = elim (Bool-cases (bytes_eq.same path p)) [
    | inl same ↦
        let here : path ≡ p = (beq_iff path p).0 same in
        rw (← here) (
          file_size_there path touched.disk
            (find-assign_self path (file now readable contents) w.disk)
          ∙ sym (file_size_there path w.disk there))
    | inr differs ↦
        file_size_eq p w.disk touched.disk
          (ground (arith, find-assign path p (file now readable contents) w.disk))
  ]

  all_sizes :
      (xs : List TimePath)
      → total (λ (x : TimePath). file_size x.1 touched.disk) xs
        ≡ total (λ (x : TimePath). file_size x.1 w.disk) xs
  all_sizes [] = refl
  all_sizes (x ∷ xs) = omega (arith, touched_size x.1, all_sizes xs)

  pub touched-IsTracked : IsTracked w → IsTracked touched
  touched-IsTracked v = record {
    files = All-map (λ x h. touched-IsFile x.1 h) w.manager.time_queue v.files;
    distinct = v.distinct;
    size = omega (arith, v.size, all_sizes w.manager.time_queue);
  }

-- A hit leaves the queue and the size in agreement with the files, and gives the path of an entry of
-- the directory, which has the time of the lookup if it is a file; a miss changes nothing.
abbrev pub seen : ℕ → Node → Node
seen now (file time readable contents) = file now readable contents
seen now other = other

abbrev pub Looked : ℕ → ℕ → World → Run (World × Option Bytes) → Type 0
Looked key now w (done (w', none)) = (w' ≡ w) × (find key w.manager.extension_map ≡ none)
Looked key now w (done (w', some p)) =
    IsTracked w'
    × (w'.manager ≡ w.manager)
    × ((ext : Bytes) × (find key w.manager.extension_map ≡ some ext)
        × (p ≡ hit_path w key ext)
        × ((node : Node) × (find p w.disk ≡ some node) × (find p w'.disk ≡ some (seen now node))))
Looked key now w thrown =
    (ext : Bytes) × (find key w.manager.extension_map ≡ some ext)
    × (find (hit_path w key ext) w.disk ≡ none)
Looked key now w undefined = ⊥
Looked key now w running = ⊥

module _ (key now : ℕ) (w : World) (v : IsTracked w) where
  hit-Looked :
      (ext : Bytes)
      → find key w.manager.extension_map ≡ some ext
      → (entry : Option Node) → find (hit_path w key ext) w.disk ≡ entry
      → Looked key now w (check_cache key now w)
  unfolding check_cache
  hit-Looked ext e none f = rw (e, check_cache) (rw (f, check_cache) (ext, e, f))
  hit-Looked ext e (some other) f =
      rw (e, check_cache) (rw (f, check_cache) (v, refl, (ext, e, refl, (other, f, f))))
  hit-Looked ext e (some (file time readable contents)) f =
      rw (e, check_cache)
        (rw (f, check_cache)
          (
            touched-IsTracked w (hit_path w key ext) time now readable contents f v,
            refl,
            (
              ext,
              e,
              refl,
              (
                file time readable contents,
                f,
                find-assign_self (hit_path w key ext) (file now readable contents) w.disk,
              ),
            ),
          ))

  -- With a queue and a size that agree with the files, `checkCache` gives no path and changes
  -- nothing where the key is not in the map. Where it is, the path is the directory, the key and
  -- the extension with nothing between them: if there is an entry it is given, a file there has the
  -- time `now` and its bytes, the manager is as it was, and the queue and the size agree with the
  -- files; if there is none, it throws.
  pub check_cache-Looked : Looked key now w (check_cache key now w)
  unfolding check_cache
  check_cache-Looked = elim (Option-cases (find key w.manager.extension_map)) [
    | inl miss ↦ rw (miss, check_cache) (refl, miss)
    | inr (ext, e) ↦ hit-Looked ext e (find (hit_path w key ext) w.disk) refl
  ]
