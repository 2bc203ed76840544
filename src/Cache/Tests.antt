-- ===== src/Cache/Tests.antt =====
-- The theorems about src/confab/CacheManager.cpp at a small directory.
use sclork_tools.Prelude.{
  Bytes, codes, beq, beq_iff, true, false, ◌&&◌, some, List, [], ◌∷◌, ◌≡◌, ◌≢◌, refl, arith, ◌==◌,
}
use sclork_tools.Dict.{find, erase, assign, insert, nat_eq, bytes_eq}
use sclork_tools.Asset.Keys.{key_to_string, hex_digits, hex_digit}
use sclork_tools.Samples.{codec, verifiers, answering, builder, hash, asset_data_tables}
use sclork_tools.Cache.Disk.{file, other, Disk, file_size}
use sclork_tools.Http.Interfaces.{Network, Request, get_asset_data_chunk}
use sclork_tools.Http.Client.{get_asset_data}
use sclork_tools.Cache.Defs.{
  World, done, init, track, make_room_for, check_existing_entries, validate_file,
}
use sclork_tools.Cache.Tracked.{IsTracked}
use sclork_tools.Cache.Room.{make_room_for_ends, Roomy}
use sclork_tools.Cache.Validate.{content_hash, validate_file-content_hash}
use sclork_tools.Cache.Entries.{IsDirectory}
use sclork_tools.Cache.Start.{Started, check_existing_entries-Started}
use sclork_tools.Cache.Download.{download, download_path}
use sclork_tools.Cache.Kept.{Downloaded, download-Downloaded}
use sclork_tools.Cache.Steps.{downloads, Reach, here, next, Reach-IsTracked}

abbrev two : Bytes
two = 1 ∷ 2 ∷ []

abbrev path : Bytes
path = codes "c/2"

abbrev directory : Disk
directory = (path, file 5 true two) ∷ (codes "c/9", file 6 true two) ∷ (codes "c/d", other) ∷ []

abbrev started : World
started = record { manager = init (codes "c") 1; disk = directory }

differs : (a b : Bytes) → beq a b ≡ false → a ≢ b
differs a b d e = let same = (beq_iff a b).1 e in cc

directory-IsDirectory : IsDirectory directory
unfolding beq
directory-IsDirectory = (
  (differs (codes "c/9") path refl, (differs (codes "c/d") path refl, tt)),
  omega arith,
  ((differs (codes "c/d") (codes "c/9") refl, tt), omega arith, (tt, tt, tt)),
)

check_existing_entries-Started_example :
    (w' : World) × (check_existing_entries hash 7 true started ≡ done w')
    × Started hash true started w'
check_existing_entries-Started_example =
    check_existing_entries-Started hash true 7 started directory-IsDirectory (omega arith)

-- A manager that tracks the first file.
abbrev tracking : World
tracking = record {
  manager = record {
    cache_path = codes "c";
    max_size = 1;
    current_size = 2;
    time_queue = (4, path) ∷ [];
    extension_map = (2, []) ∷ [];
  };
  disk = directory;
}

tracking-IsTracked : IsTracked tracking
unfolding find file_size beq
tracking-IsTracked = record {
  files = ((5, true, two, refl, omega arith), tt);
  distinct = (tt, tt);
  size = refl;
}

make_room_for_ends_example :
    (w' : World) × (make_room_for 3 0 tracking ≡ done w') × Roomy 0 tracking w'
make_room_for_ends_example =
    make_room_for_ends 3 0 tracking tracking-IsTracked (omega arith) (omega arith)

validate_file-content_hash_example :
    validate_file hash true 2 true two ≡ some (true && content_hash hash two == 2)
validate_file-content_hash_example = validate_file-content_hash hash 2 true two

started-IsTracked : IsTracked started
unfolding init
started-IsTracked = record { files = tt; distinct = tt; size = refl }

-- A download of two bytes in one chunk.
abbrev server : Network
server = answering two

abbrev place : Bytes
place = codes "c/0000000000000002"

abbrev downloaded : World
downloaded = record {
  manager = record {
    cache_path = codes "c";
    max_size = 1;
    current_size = 2;
    time_queue = (8, place) ∷ [];
    extension_map = (2, []) ∷ [];
  };
  disk = (place, file 8 true two) ∷ directory;
}

download-Downloaded_example :
    Downloaded server codec verifiers builder hash asset_data_tables 2 2 []
      (download_path server codec verifiers builder hash asset_data_tables started 2 [])
      8
      started
      (download server codec verifiers builder hash asset_data_tables 2 2 1 [] true 8 [] started)
unfolding init
download-Downloaded_example =
    download-Downloaded server codec verifiers builder hash asset_data_tables 2 2 1 [] 8 [] started
      started-IsTracked tt (omega arith)

abbrev asked : List Request
asked = get_asset_data_chunk (key_to_string 2) 0 ∷ []

downloads_it :
    download server codec verifiers builder hash asset_data_tables 2 2 1 [] true 8 [] started
    ≡ done (asked, downloaded, some place)
unfolding init download find beq erase assign insert track key_to_string hex_digits hex_digit
    get_asset_data
downloads_it = refl

steps : Reach server codec verifiers builder hash asset_data_tables started downloaded
unfolding init
steps =
    next here (downloads 2 2 1 [] 8 [] asked downloaded (some place) tt (omega arith) downloads_it)

Reach-IsTracked_example : IsTracked downloaded
Reach-IsTracked_example =
    Reach-IsTracked server codec verifiers builder hash asset_data_tables started-IsTracked steps
