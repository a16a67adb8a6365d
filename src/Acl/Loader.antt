-- ===== src/Acl/Loader.antt =====
-- acl/geoloader.go: loading one geo database, GeoIP or GeoSite, which differ in their file and their
-- type. The file, the server of the downloads and the decoder are the state and parameters.
pub mod Sound
use anytls_go.Common.{Bytes, Option, none, some, Bool, true, false, length, ◌==◌, if◌then◌else◌}
use anytls_go.Text.{ℤ, pos, negsuc, le_int}

-- What os.Stat answers and the bytes of the file; `age` is time.Since of its ModTime.
pub record File : Type 0 where
  pub content : Bytes
  pub age : ℤ

pub data Disk : Type 0 where
  no_file unreadable : Disk
  file : File → Disk

-- The steps of a download that may fail: http.Get, CreateTemp, Copy and Rename
pub record Web : Type 0 where
  pub response : Option Bytes
  pub creates : Bool
  pub copies : Bool
  pub renames : Bool

-- geoDefaultUpdateInterval, 7 days
abbrev pub geo_default_update_interval : ℤ
geo_default_update_interval = pos 604800000000000

pub record FileGeoLoader {ℓ} (G : Type ℓ) : Type ℓ where
  pub filename : Bytes
  pub update_interval : ℤ
  pub cached : Option G

-- > on durations
abbrev pub longer : ℤ → ℤ → Bool
longer a b = if le_int a b then false else true

abbrev pub is_zero : ℤ → Bool
is_zero (pos n) = n == 0
is_zero (negsuc n) = false

-- shouldDownload; none is the panic at a nil FileInfo.
unfoldable pub should_download : ℤ → Disk → Option Bool
should_download interval no_file = some true
should_download interval unreadable = none
should_download interval (file f) = some (
    if length f.content == 0
    then true
    else if is_zero interval
    then longer f.age geo_default_update_interval
    else longer f.age interval)

-- What LoadGeoIP and LoadGeoSite return
pub data Loading {ℓ} (G : Type ℓ) : Type ℓ where
  has : G → Loading G
  load_error : Loading G
  panics : Loading G

module _ {ℓ} {G : Type ℓ} (parse : Bytes → Option G) where
  -- The body cannot be stored.
  abbrev pub blocked : Web → Bool
  blocked w = if w.creates then (if w.copies then false else true) else true

  -- The check and the rename of a body that is stored
  abbrev pub renamed : Web → Bytes → Disk → Option G → Disk × Bool
  renamed w body d none = (d, false)
  renamed w body d (some m) =
      if w.renames then (file (record { content = body; age = pos 0 }), true) else (d, false)

  -- downloadAndCheck: the file behind it, and whether it is without an error
  abbrev pub checked_body : Web → Bytes → Disk → Disk × Bool
  checked_body w body d = if blocked w then (d, false) else renamed w body d (parse body)

  abbrev pub with_response : Web → Option Bytes → Disk → Disk × Bool
  with_response w none d = (d, false)
  with_response w (some body) d = checked_body w body d

  unfoldable pub download_and_check : Web → Disk → Disk × Bool
  download_and_check w d = with_response w w.response d

  -- v2geo.LoadGeoIP and v2geo.LoadGeoSite on the file
  unfoldable pub read_disk : Disk → Option G
  read_disk no_file = none
  read_disk unreadable = none
  read_disk (file f) = parse f.content

  abbrev pub keep_map : FileGeoLoader G → Disk → Option G → FileGeoLoader G × Disk × Loading G
  keep_map l d none = (l, d, load_error)
  keep_map l d (some m) = (record l { cached = some m }, d, has m)

  abbrev pub exists_file : Disk → Bool
  exists_file no_file = false
  exists_file d = true

  -- Behind the download: as long as a file exists it is used.
  abbrev pub after_download : FileGeoLoader G → Disk × Bool → FileGeoLoader G × Disk × Loading G
  after_download l (d, true) = keep_map l d (read_disk d)
  after_download l (d, false) =
      if exists_file d then keep_map l d (read_disk d) else (l, d, load_error)

  abbrev pub or_download :
      FileGeoLoader G → Web → Disk → Option G → FileGeoLoader G × Disk × Loading G
  or_download l w d (some m) = keep_map l d (some m)
  or_download l w d none = after_download l (download_and_check w d)

  abbrev pub by_age :
      FileGeoLoader G → Web → Disk → Option Bool → FileGeoLoader G × Disk × Loading G
  by_age l w d none = (l, d, panics)
  by_age l w d (some true) = after_download l (download_and_check w d)
  by_age l w d (some false) = or_download l w d (read_disk d)

  abbrev pub not_cached : FileGeoLoader G → Web → Disk → FileGeoLoader G × Disk × Loading G
  not_cached l w d =
      if length l.filename == 0
      then by_age l w d (should_download l.update_interval d)
      else keep_map l d (read_disk d)

  abbrev pub from_cache :
      FileGeoLoader G → Web → Disk → Option G → FileGeoLoader G × Disk × Loading G
  from_cache l w d (some m) = (l, d, has m)
  from_cache l w d none = not_cached l w d

  -- LoadGeoIP and LoadGeoSite of FileGeoLoader
  unfoldable pub load_geo : FileGeoLoader G → Web → Disk → FileGeoLoader G × Disk × Loading G
  unfolding download_and_check read_disk should_download
  load_geo l w d = from_cache l w d l.cached
