-- ===== src/Cache/Scan.antt =====
-- Steps of src/confab/CacheManager.cpp that leave the queue and the size in agreement with the files.
use sclork_tools.Prelude.{ℕ, ◌<◌, Bytes, Bool, some, ◌≡◌, ◌∙◌, arith, length}
use sclork_tools.Dict.{find, bytes_eq}
use sclork_tools.Asset.RoundTrip.{All}
use sclork_tools.Cache.Disk.{file, Disk, file_size}
use sclork_tools.Cache.TimeQueue.{TimePath}
use sclork_tools.Cache.Queues.{All-map, All-zip, total, Fresh}
use sclork_tools.Cache.Defs.{World, size_mod, track}
use sclork_tools.Cache.Tracked.{
  IsTracked, total_eq, file_size_eq, last_write_time_eq, file_size_there, last_write_time_there,
}
use sclork_tools.Cache.Latest.{IsAccurate}

-- The disk has changed, but not at the paths in the queue.
module _ (w : World) (disk : Disk)
    (same : All (λ (x : TimePath). find x.1 disk ≡ find x.1 w.disk) w.manager.time_queue) where
  sizes_same :
      total (λ (x : TimePath). file_size x.1 disk) w.manager.time_queue
      ≡ total (λ (x : TimePath). file_size x.1 w.disk) w.manager.time_queue
  sizes_same =
      total_eq _ _ w.manager.time_queue
        (All-map (λ x e. file_size_eq _ _ _ e) w.manager.time_queue same)

  pub IsTracked-disk : IsTracked w → IsTracked (record w { disk = disk })
  IsTracked-disk v = record {
    files = All-zip (λ x e h. (h.0, h.1, h.2, e ∙ h.3, h.4)) w.manager.time_queue same v.files;
    distinct = v.distinct;
    size = omega (arith, sizes_same, v.size);
  }

  pub IsAccurate-disk : IsAccurate w → IsAccurate (record w { disk = disk })
  IsAccurate-disk v = All-zip (λ x e h. last_write_time_eq _ _ _ e ∙ h) w.manager.time_queue same v

-- A file that is not in the queue is entered.
module _ (w : World) (path : Bytes) (time : ℕ) (readable : Bool) (contents : Bytes) (key : ℕ)
    (ext : Bytes) (fresh : Fresh path w.manager.time_queue)
    (there : find path w.disk ≡ some (file time readable contents)) where
  abbrev pub entered : World
  entered = record w { manager = track path (length contents) time key ext w.manager }

  pub track-IsTracked : length contents < size_mod → IsTracked w → IsTracked entered
  unfolding track
  track-IsTracked small v = record {
    files = ((time, readable, contents, there, small), v.files);
    distinct = (fresh, v.distinct);
    size = omega (arith, v.size, file_size_there _ _ there);
  }

  pub track-IsAccurate : IsAccurate w → IsAccurate entered
  unfolding track
  track-IsAccurate v = (last_write_time_there _ _ there, v)
