-- ===== src/Archive/Recovery.antt =====
-- What is recovered from the archive is what it holds.
use pkgundo.Prelude.{
  Text, Bool, true, false, ℕ, Option, none, some, Result, ok, err, ◌≡◌, ◌≢◌, refl, arith, ap, sym,
  ◌∙◌,
}
use pkgundo.System.{Os, Bytes}
use pkgundo.System.Lawful.{IsLawful}
use pkgundo.Exec.{World, pure}
use pkgundo.Exec.Keeps.{bind-keeps}
use pkgundo.Paths.{PathBuf, parent, components, to_text}
use pkgundo.Archive.{
  Codec, ArchiveMetadata, read_metadata, chown_recorded, chmod_recorded, restore_from,
  restore_ownership, make_parent, report_if, recover_copy, link_target, recover_by, recover_entry,
}

module _ (os : Os) (codec : Codec) {Apart : Text → Text → Type 0} (lawful : IsLawful os Apart)
    (path archived : Text) (c : Bytes) where
  chown_recorded-read :
      (link : Bool) (uid gid : Option ℕ) (w : World os)
      → os.read w.state path ≡ ok c
      → os.read (chown_recorded os codec link path uid gid w).1.state path ≡ ok c
  unfolding chown_recorded
  chown_recorded-read true (some uid) (some gid) w h =
      ground (arith, lawful.read-lchown path path uid gid c w.state h, h)
  chown_recorded-read false (some uid) (some gid) w h =
      ground (arith, lawful.read-chown path path uid gid c w.state h, h)
  chown_recorded-read true none gid w h = h
  chown_recorded-read false none gid w h = h
  chown_recorded-read true (some uid) none w h = h
  chown_recorded-read false (some uid) none w h = h

  chmod_recorded-read :
      (mode : Option ℕ) (w : World os)
      → os.read w.state path ≡ ok c
      → os.read (chmod_recorded os codec path mode w).1.state path ≡ ok c
  unfolding chmod_recorded
  chmod_recorded-read none w h = h
  chmod_recorded-read (some mode) w h = lawful.read-set_permissions path path _ c w.state h

  restore_from-read :
      (meta : Option ArchiveMetadata) (link : Bool) (w : World os)
      → os.read w.state path ≡ ok c
      → os.read (restore_from os codec meta link path w).1.state path ≡ ok c
  unfolding restore_from
  restore_from-read none link w h = h
  restore_from-read (some meta) true w h = chown_recorded-read true meta.uid meta.gid w h
  restore_from-read (some meta) false w h =
      bind-keeps (λ w. os.read w.state path ≡ ok c) (chmod_recorded os codec path meta.mode)
        (λ _. chown_recorded os codec false path meta.uid meta.gid) w
        (chmod_recorded-read meta.mode w h) (λ _ w'. chown_recorded-read false meta.uid meta.gid w')

  report_if-read :
      (made : Result (Unit {0})) (w : World os)
      → os.read w.state path ≡ ok c
      → os.read (report_if os codec made archived path w).1.state path ≡ ok c
  unfolding report_if restore_ownership
  report_if-read (ok u) w h =
      bind-keeps (λ w. os.read w.state path ≡ ok c) (restore_ownership os codec archived path)
        (λ _. pure (some path)) w
        (restore_from-read (read_metadata os codec w.state archived) (os.is_symlink w.state path) w
          h)
        (λ _ w' h'. h')
  report_if-read (err e) w h = h

  not_reported :
      (e : Text) (w : World os) → (report_if os codec (err e) archived path w).0 ≢ ok (some path)
  unfolding report_if
  not_reported e w h = absurd (cc h)

  make_parent-read :
      (dir : Option PathBuf) (w : World os)
      → os.read w.state archived ≡ ok c
      → os.read (make_parent os codec dir w).1.state archived ≡ ok c
  unfolding make_parent
  make_parent-read none w h = h
  make_parent-read (some dir) w h = lawful.read-create_dir_all (to_text dir) archived w.state c h

  make_parent-ok : (dir : Option PathBuf) (w : World os) → (make_parent os codec dir w).0 ≡ ok tt
  unfolding make_parent
  make_parent-ok none w = refl
  make_parent-ok (some dir) w = refl

  recover_copy-eq :
      (w : World os)
      → recover_copy os codec true archived path w ≡ (
          let w' = (make_parent os codec (parent (components path)) w).1 in
          report_if os codec
            (os.copy archived path w'.state).0
            archived
            path
            (record w' { state = (os.copy archived path w'.state).1 }))
  unfolding recover_copy
  recover_copy-eq w = ground (arith, make_parent-ok (parent (components path)) w)

  reported-read :
      (made : Result (Unit {0})) (w : World os)
      → ((u : Unit {0}) → made ≡ ok u → os.read w.state path ≡ ok c)
      → (report_if os codec made archived path w).0 ≡ ok (some path)
      → os.read (report_if os codec made archived path w).1.state path ≡ ok c
  reported-read (ok u) w held h = report_if-read (ok u) w (held u refl)
  reported-read (err e) w held h = absurd (not_reported e w h)

  recover_copy-read :
      (w : World os)
      → Apart archived path
      → os.read w.state archived ≡ ok c
      → (recover_copy os codec true archived path w).0 ≡ ok (some path)
      → os.read (recover_copy os codec true archived path w).1.state path ≡ ok c
  recover_copy-read w apart held h =
      let w' = (make_parent os codec (parent (components path)) w).1 in
      rw (recover_copy-eq w) (
        reported-read (os.copy archived path w'.state).0
          (record w' { state = (os.copy archived path w'.state).1 })
          (λ u done.
            lawful.read-copy archived path w'.state c u apart done
              (make_parent-read (parent (components path)) w held))
          (ap (λ r. r.0) (sym (recover_copy-eq w)) ∙ h))

  -- If a file that was archived as a file (its metadata, if any, names no link target, and its copy is
  -- there, can be read, and is another file than its path) is reported as recovered, then its path
  -- holds what the copy held.
  pub recover_entry-read :
      (w : World os)
      → Apart archived path
      → link_target os codec (read_metadata os codec w.state archived) ≡ none
      → os.exists w.state archived ≡ true
      → os.read w.state archived ≡ ok c
      → (recover_entry os codec path archived w).0 ≡ ok (some path)
      → os.read (recover_entry os codec path archived w).1.state path ≡ ok c
  unfolding recover_entry recover_by
  recover_entry-read w apart plain there held h = ground (arith, recover_copy-read w apart held)
