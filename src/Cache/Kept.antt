-- ===== src/Cache/Kept.antt =====
-- What `CacheManager::download` of src/confab/CacheManager.cpp keeps.
use sclork_tools.Prelude.{
  ℕ, zero, suc, ◌+◌, ◌<◌, Bytes, true, ◌&&◌, Option, none, some, [], ◌++◌, ◌≡◌, ◌≢◌, ◌⊎◌, inl, inr,
  refl, sym, ap, ◌∙◌, arith, Bool-cases, Option-cases, length, ◌==◌,
}
use sclork_tools.Dict.{find, erase, assign, nat_eq, bytes_eq}
use sclork_tools.Asset.RoundTrip.{All}
use sclork_tools.Http.Interfaces.{Base64, Verifiers, Network, Builder, Hash, AssetDataTables}
use sclork_tools.Http.Client.{Fetched, record_of, no_record, fatal, get_asset_data}
use sclork_tools.Cache.Disk.{file, Disk}
use sclork_tools.Cache.TimeQueue.{TimePath}
use sclork_tools.Cache.Queues.{All-map, Fresh}
use sclork_tools.Cache.Defs.{World, Run, done, thrown, undefined, running, size_mod, track}
use sclork_tools.Cache.Tracked.{
  IsTracked, find-erase_ne, find-erase_self, find-assign_ne, find-assign_self,
}
use sclork_tools.Cache.Scan.{IsTracked-disk, track-IsTracked}
use sclork_tools.Cache.Download.{
  Received, received, broken, receive_chunks, keep_download, download_path, download,
}

module _ (N : Network) (codec : Base64) (verifiers : Verifiers) (B : Builder) (H : Hash)
    (A : AssetDataTables) where
  open N use {Net}

  abbrev start : H.State
  start = H.reset 0

  -- The state of the hash and the digest are those of the bytes written, from the first chunk on.
  abbrev Digested : H.State → ℕ → Bytes → Type 0
  Digested state digest written =
      ((state ≡ start) × (digest ≡ 0) × (written ≡ []))
      ⊎ ((state ≡ H.update start written) × (digest ≡ H.digest (H.update start written)))

  Digested-step :
      (state : H.State) (digest : ℕ) (written chunk : Bytes)
      → Digested state digest written
      → Digested (H.update state chunk) (H.digest (H.update state chunk)) (written ++ chunk)
  Digested-step state digest written chunk (inl (s, d, w)) = inr (rw (s, w) refl, rw (s, w) refl)
  Digested-step state digest written chunk (inr (s, d)) =
      let e : H.update state chunk ≡ H.update start (written ++ chunk) =
        ap (λ t. H.update t chunk) s ∙ H.update-append start written chunk in
      inr (e, ap H.digest e)

  -- The digest after a loop that ends well.
  abbrev WellReceived : Received N codec verifiers B H A → Type 0
  WellReceived broken = Unit
  WellReceived (received net fine digest written) =
      fine ≡ true → ((digest ≡ 0) × (written ≡ [])) ⊎ (digest ≡ H.digest (H.update start written))

  -- One round, with the rounds that follow.
  module _ (rounds key i : ℕ) (state : H.State) (digest : ℕ) (written : Bytes) (net : Net)
      (rest : (state' : H.State) (digest' : ℕ) (written' : Bytes) (net' : Net)
        → Digested state' digest' written'
        → WellReceived (
            receive_chunks N codec verifiers B H A rounds key (i + 1) state' digest' written' net'))
      (g : Digested state digest written) where
    abbrev got : Net × Fetched
    got = get_asset_data N codec verifiers B H key i net

    receive_round :
        (fetched : Fetched)
        → got.1 ≡ fetched
        → WellReceived
            (receive_chunks N codec verifiers B H A (suc rounds) key i state digest written net)
    unfolding receive_chunks
    receive_round no_record e = rw (e, receive_chunks) (λ h. cc)
    receive_round fatal e = rw (e, receive_chunks) tt
    receive_round (record_of bytes) e =
        elim (Option-cases (A.get_flat_asset_data bytes).data_bytes) [
          | inl null ↦ rw (e, null, receive_chunks) tt
          | inr (chunk, there) ↦
              let digest' = H.digest (H.update state chunk) in
              elim (Bool-cases (digest' == (A.get_flat_asset_data bytes).hash)) [
                | inl same ↦
                    rw (e, there, same, receive_chunks)
                      (rest (H.update state chunk) digest' (written ++ chunk) got.0
                        (Digested-step state digest written chunk g))
                | inr differs ↦ rw (e, there, differs, receive_chunks) (λ h. cc)
              ]
        ]

  receive_chunks-WellReceived :
      (rounds key i : ℕ) (state : H.State) (digest : ℕ) (written : Bytes) (net : Net)
      → Digested state digest written
      → WellReceived (receive_chunks N codec verifiers B H A rounds key i state digest written net)
  unfolding receive_chunks
  receive_chunks-WellReceived zero key i state digest written net (inl (s, d, w)) = λ h. inl (d, w)
  receive_chunks-WellReceived zero key i state digest written net (inr (s, d)) = λ h. inr d
  receive_chunks-WellReceived (suc rounds) key i state digest written net g =
      receive_round rounds key i state digest written net
        (receive_chunks-WellReceived rounds key (i + 1)) g
        (get_asset_data N codec verifiers B H key i net).1 refl

  abbrev Result : Type 0
  Result = Run (Net × World × Option Bytes)

  -- A download to a path ends with a file there that has the size and the hash that were asked for,
  -- or with no file there and the manager as it was. Other files stay as they are, and the queue and
  -- the size agree with the files.
  abbrev pub Downloaded : ℕ → ℕ → Bytes → Bytes → ℕ → World → Result → Type 0
  Downloaded key size ext path now w (done (net, w', some p)) =
      (p ≡ path)
      × (w'.manager ≡ track path size now key ext w.manager)
      × IsTracked w'
      × ((q : Bytes) → q ≢ path → find q w'.disk ≡ find q w.disk)
      × ((contents : Bytes) × (find path w'.disk ≡ some (file now true contents))
          × (length contents ≡ size)
          × (((key ≡ 0) × (size ≡ 0)) ⊎ (H.digest (H.update (H.reset 0) contents) ≡ key)))
  Downloaded key size ext path now w (done (net, w', none)) =
      (w'.manager ≡ w.manager)
      × IsTracked w'
      × ((q : Bytes) → q ≢ path → find q w'.disk ≡ find q w.disk)
      × (find path w'.disk ≡ none)
  Downloaded key size ext path now w undefined = Unit
  Downloaded key size ext path now w thrown = ⊥
  Downloaded key size ext path now w running = ⊥

  module _ (key size : ℕ) (ext path : Bytes) (now : ℕ) (w : World) (v : IsTracked w)
      (fresh : Fresh path w.manager.time_queue) (small : size < size_mod) where
    -- The file is written, and entered.
    module _ (written : Bytes) (whole : size ≡ length written) where
      abbrev new_disk : Disk
      new_disk = assign path (file now true written) w.disk

      apart : All (λ (x : TimePath). find x.1 new_disk ≡ find x.1 w.disk) w.manager.time_queue
      apart =
          All-map (λ x h. find-assign_ne path (file now true written) w.disk x.1 h)
            w.manager.time_queue fresh

      kept-IsTracked :
          IsTracked (record { manager = track path size now key ext w.manager; disk = new_disk })
      kept-IsTracked = rw whole (
          track-IsTracked (record w { disk = new_disk }) path now true written key ext fresh
            (find-assign_self path (file now true written) w.disk) (omega arith)
            (IsTracked-disk w new_disk apart v))

    keep-Downloaded :
        (r : Received N codec verifiers B H A)
        → WellReceived r
        → Downloaded key size ext path now w
            (keep_download N codec verifiers B H A key size ext path now r w)
    unfolding keep_download
    keep-Downloaded broken g = tt
    keep-Downloaded (received net fine digest written) g =
        elim (Bool-cases (fine && key == digest && size == length written)) [
          | inr lost ↦ rw lost (
            refl,
            IsTracked-disk w (erase path w.disk)
                (All-map (λ x h. find-erase_ne path w.disk x.1 h) w.manager.time_queue fresh) v,
            find-erase_ne path w.disk,
            find-erase_self path w.disk,
          )
          | inl kept ↦
              let whole : size ≡ length written = ground arith in
              let agreed : key ≡ digest = ground arith in
              let ok : fine ≡ true = ground arith in
              rw kept (
                refl,
                refl,
                kept-IsTracked written whole,
                find-assign_ne path (file now true written) w.disk,
                (
                  written,
                  find-assign_self path (file now true written) w.disk,
                  sym whole,
                  elim (g ok) [
                    | inl (d, e) ↦ inl (agreed ∙ d, whole ∙ ap length e)
                    | inr d ↦ inr (sym d ∙ sym agreed)
                  ],
                ),
              )
        ]

  -- A download to a path that is not in the queue and can be opened, of a size below 2^64, that
  -- ends without an undefined access, either keeps a file there that has the size and, unless key
  -- and size are 0, a hash equal to the key, is entered in the manager, and is the path that is
  -- returned; or it leaves no file there and the manager as it was, and returns no path. It makes
  -- no room: other files are as they were, and the queue and the size agree with the files.
  pub download-Downloaded :
      (key size chunks : ℕ) (ext : Bytes) (now : ℕ) (net : Net) (w : World)
      → IsTracked w
      → Fresh (download_path N codec verifiers B H A w key ext) w.manager.time_queue
      → size < size_mod
      → Downloaded key size ext
          (download_path N codec verifiers B H A w key ext)
          now
          w
          (download N codec verifiers B H A key size chunks ext true now net w)
  unfolding download
  download-Downloaded key size chunks ext now net w v fresh small =
      keep-Downloaded key size ext (download_path N codec verifiers B H A w key ext) now w v fresh
        small (receive_chunks N codec verifiers B H A chunks key 0 (H.reset 0) 0 [] net)
        (receive_chunks-WellReceived chunks key 0 (H.reset 0) 0 [] net (inl (refl, refl, refl)))
