-- ===== src/Acl/Loader/Sound.antt =====
-- A database is what its file holds, and a download replaces the file by one that parses only.
use anytls_go.Common.{
  Bytes, Option, none, some, Bool, true, false, length, ◌==◌, if_elim, ◌≡◌, ◌⊎◌, inl, inr, refl,
  sym, ap, subst,
}
use anytls_go.Acl.Loader.{
  Disk, no_file, unreadable, file, Web, FileGeoLoader, should_download, Loading, has, load_error,
  panics, renamed, blocked, with_response, download_and_check, read_disk, keep_map, exists_file,
  after_download, or_download, by_age, from_cache, load_geo,
}

module _ {G : Type 0} (parse : Bytes → Option G) where
  -- The file is as it was, or it parses.
  abbrev pub IsKept : Disk → Disk → Type 0
  IsKept old new = (new ≡ old) ⊎ ((m : G) × (read_disk parse new ≡ some m))

  -- A database that is returned is the one of the file and is remembered.
  abbrev pub Returned : FileGeoLoader G → Disk → Loading G → Type 0
  Returned l d (has m) = (read_disk parse d ≡ some m) × (l.cached ≡ some m)
  Returned l d load_error = l.cached ≡ none
  Returned l d panics = d ≡ unreadable

  abbrev pub IsSound : Disk → FileGeoLoader G × Disk × Loading G → Type 0
  IsSound old (l, d, r) = IsKept old d × Returned l d r

  keep-IsSound :
      (old d : Disk) (l : FileGeoLoader G) (o : Option G)
      → read_disk parse d ≡ o
      → l.cached ≡ none
      → IsKept old d
      → IsSound old (keep_map parse l d o)
  keep-IsSound old d l none e n k = (k, n)
  keep-IsSound old d l (some m) e n k = (k, (e, refl))

  body-IsKept :
      (w : Web) (body : Bytes) (d : Disk) (o : Option G)
      → parse body ≡ o
      → IsKept d (renamed parse w body d o).0
  body-IsKept w body d none e = inl refl
  body-IsKept w body d (some m) e =
      if_elim (λ (x : Disk × Bool). IsKept d x.0) w.renames _ _
        (λ h. inr (m, unfold read_disk in e)) (λ h. inl refl)

  download-IsKept : (w : Web) (d : Disk) (o : Option Bytes) → IsKept d (with_response parse w o d).0
  download-IsKept w d none = inl refl
  download-IsKept w d (some body) =
      if_elim (λ (x : Disk × Bool). IsKept d x.0) (blocked parse w) _ _ (λ e. inl refl)
        (λ e. body-IsKept w body d (parse body) refl)

  after-IsSound :
      (old : Disk) (l : FileGeoLoader G) (d : Disk) (b : Bool)
      → l.cached ≡ none
      → IsKept old d
      → IsSound old (after_download parse l (d, b))
  after-IsSound old l d true n k = keep-IsSound old d l (read_disk parse d) refl n k
  after-IsSound old l d false n k =
      if_elim (IsSound old) (exists_file parse d) _ _
        (λ e. keep-IsSound old d l (read_disk parse d) refl n k) (λ e. (k, n))

  or_download-IsSound :
      (l : FileGeoLoader G) (w : Web) (d : Disk) (o : Option G)
      → read_disk parse d ≡ o
      → l.cached ≡ none
      → IsSound d (or_download parse l w d o)
  unfolding download_and_check
  or_download-IsSound l w d none e n =
      let r = with_response parse w w.response d in
      after-IsSound d l r.0 r.1 n (download-IsKept w d w.response)
  or_download-IsSound l w d (some m) e n = keep-IsSound d d l (some m) e n (inl refl)

  by_age-IsSound :
      (l : FileGeoLoader G) (w : Web) (d : Disk) (o : Option Bool)
      → should_download l.update_interval d ≡ o
      → l.cached ≡ none
      → IsSound d (by_age parse l w d o)
  unfolding download_and_check should_download
  by_age-IsSound l w no_file none e n = absurd cc
  by_age-IsSound l w unreadable none e n = (inl refl, refl)
  by_age-IsSound l w (file f) none e n = absurd cc
  by_age-IsSound l w d (some true) e n =
      let r = with_response parse w w.response d in
      after-IsSound d l r.0 r.1 n (download-IsKept w d w.response)
  by_age-IsSound l w d (some false) e n = or_download-IsSound l w d (read_disk parse d) refl n

  -- A first load leaves the file as it was, or replaced by a download that parses. If it returns a
  -- database, the file holds it, and every later load returns the same one with no access to the
  -- file or the network; if it returns an error, a later load tries again; and it panics only at a
  -- file whose status cannot be read.
  pub load_geo-IsSound :
      (l : FileGeoLoader G) (w : Web) (d : Disk)
      → l.cached ≡ none
      → IsSound d (load_geo parse l w d)
        × ((m : G)
            → (load_geo parse l w d).2 ≡ has m
            → (w' : Web) (d' : Disk)
            → load_geo parse (load_geo parse l w d).0 w' d' ≡ ((load_geo parse l w d).0, d', has m))
  unfolding load_geo
  load_geo-IsSound l w d n =
      let sound : IsSound d (load_geo parse l w d) =
        subst (λ o. IsSound d (from_cache parse l w d o)) (sym n)
          (if_elim (IsSound d) (length l.filename == 0) _ _
            (λ e. by_age-IsSound l w d (should_download l.update_interval d) refl n)
            (λ e. keep-IsSound d d l (read_disk parse d) refl n (inl refl))) in
      (
        sound,
        λ m e w' d'.
            let r = load_geo parse l w d in
            let kept = subst (Returned r.0 r.1) e sound.1 in ap (from_cache parse r.0 w' d') kept.1,
      )
