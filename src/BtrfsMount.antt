-- ===== src/BtrfsMount.antt =====
-- `src/btrfs_mount.rs`: a path on a btrfs file system is watched through a mount of its device's
-- subvolume 5, of which there is one for each device.
pub mod Longest
mod Tests
use pkgundo.Prelude.{
  Text, lit, text_eq, lines, split_whitespace, trim_start_matches, Bool, true, false, ℕ, suc, ◌+◌,
  List, [], ◌∷◌, ◌++◌, map, Option, none, some, Result, ok, err, context, if◌then◌else◌, ◌==◌, ltb,
  leb, length, get_elem?,
}
use pkgundo.Maps.{Map, lookup, put}
use pkgundo.Kernel.{Kernel, c_string}
use pkgundo.Paths.{components, path_starts_with, join}
use pkgundo.Run.{Run, pure, fail, ◌>>=◌, ◌>>◌, choose, inspect, ask, with_context}

abbrev pub btrfs_super_magic : ℕ
btrfs_super_magic = 0x9123683e

abbrev pub run_dir : Text
run_dir = lit "/run/pkgundo"

-- `s.len()`: the bytes of the text in UTF-8.
abbrev pub utf8_len : ℕ → ℕ
utf8_len c = if ltb c 0x80 then 1 else if ltb c 0x800 then 2 else if ltb c 0x10000 then 3 else 4

abbrev pub byte_len : Text → ℕ
byte_len [] = 0
byte_len (c ∷ s) = utf8_len c + byte_len s

-- A line of `/proc/self/mountinfo`, as far as it is read.
pub record MountEntry : Type 0 where
  pub mount_point : Text
  pub source : Text
  pub fstype : Text

-- What follows the first `-` of the tokens: the type of the file system and the source.
unfoldable after_separator : List Text → Option (Text × Text)
unfolding text_eq lit
after_separator [] = none
after_separator (t ∷ ts) =
    let rest = after_separator ts in
    if text_eq t (lit "-")
    then elim ts [ fstype ∷ source ∷ _ ↦ some (fstype, source) | _ ↦ none ]
    else rest

-- A line is skipped if it has less than five tokens, no separator, or less than two tokens after it.
unfoldable pub parse_mount_line : Text → Option MountEntry
unfolding after_separator split_whitespace
parse_mount_line line =
    let tokens = split_whitespace line in
    elim (get_elem? 4 tokens) [
      | none ↦ none
      | some point ↦ elim (after_separator tokens) [
        | none ↦ none
        | some (fstype, source) ↦
            some (record { mount_point = point; source = source; fstype = fstype })
      ]
    ]

abbrev best_len : Option MountEntry → ℕ
best_len none = 0
best_len (some e) = byte_len e.mount_point

-- The entry of a line takes the place of the best one if it covers the path and is longer.
abbrev better : Text → Option MountEntry → Option MountEntry → Option MountEntry
better path none best = best
better path (some e) best =
    if path_starts_with (components path) (components e.mount_point)
    then if ltb (best_len best) (byte_len e.mount_point) then some e else best
    else best

unfoldable best_mount : Text → List Text → Option MountEntry → Option MountEntry
best_mount path [] best = best
best_mount path (line ∷ ls) best = best_mount path ls (better path (parse_mount_line line) best)

unfoldable pub find_mount_source : Text → Text → Option (Text × Text)
unfolding best_mount lines
find_mount_source mountinfo path = elim (best_mount path (lines mountinfo) none) [
  | none ↦ none
  | some e ↦ some (e.source, e.fstype)
]

module _ (k : Kernel) where
  -- The proxy mounts by their source, and the kernel.
  pub record BtrfsRootMounts : Type 0 where
    pub mounts : Map Text Text
    pub kernel : k.State

  sanitize : ℕ → ℕ
  sanitize c = if k.is_alphanumeric c then c else 0x2d

  unfoldable pub mount_point_for : Text → Text
  unfolding sanitize join lit trim_start_matches
  mount_point_for source =
      join (join run_dir (lit "btrfs-root"))
        (map sanitize (trim_start_matches (λ c. c == 0x2f) source))

  is_magic : Option ℕ → Bool
  is_magic none = false
  is_magic (some type) = type == btrfs_super_magic

  unfoldable pub is_btrfs : Text → k.State → Bool
  unfolding is_magic c_string
  is_btrfs path s = elim (c_string path) [ ok p ↦ is_magic (k.statfs s p) | err e ↦ false ]

module _ {k : Kernel} where
  abbrev run_kernel : {A : Type 0} → (k.State → Result A × k.State) → Run (BtrfsRootMounts k) A
  run_kernel f s = let (r, kernel) = f s.kernel in (r, record s { kernel = kernel })

module _ (k : Kernel) where
  -- `MS_RDONLY` is 1.
  mount_subvol5 : Text → Text → Run (BtrfsRootMounts k) (Unit {0})
  mount_subvol5 source target = do
    c_source ← inspect (λ _. c_string source)
    c_target ← inspect (λ _. c_string target)
    run_kernel (k.mount c_source c_target (lit "btrfs") 1 (lit "subvolid=5"))

  insert_mount : Text → Text → Run (BtrfsRootMounts k) Text
  insert_mount source target s =
      (ok target, record s { mounts = put text_eq source target s.mounts })

  proxy_by : Text → Option Text → Run (BtrfsRootMounts k) Text
  unfolding mount_subvol5 insert_mount
  proxy_by source (some existing) = pure existing
  proxy_by source none = do
    with_context (lit "failed to create " ++ mount_point_for k source)
        (run_kernel (k.create_dir_all (mount_point_for k source)))
    mount_subvol5 source (mount_point_for k source)
    insert_mount source (mount_point_for k source)

  source_of : Text → Option (Text × Text) → Run (BtrfsRootMounts k) Text
  source_of path none = fail (lit "no mountinfo entry covers " ++ path)
  source_of path (some (source, fstype)) = pure source

  resolve_btrfs : Text → Run (BtrfsRootMounts k) Text
  unfolding proxy_by source_of
  resolve_btrfs path = do
    mountinfo ←
        with_context (lit "failed to read /proc/self/mountinfo")
          (inspect (λ s. k.read_to_string s.kernel (lit "/proc/self/mountinfo")))
    source ← source_of path (find_mount_source mountinfo path)
    existing ← ask (λ s. lookup text_eq source s.mounts)
    proxy_by source existing

  unfoldable pub resolve : Text → Run (BtrfsRootMounts k) Text
  unfolding resolve_btrfs
  resolve path s = if is_btrfs k path s.kernel then resolve_btrfs path s else (ok path, s)

  -- A failed unmount is only logged.
  umount_all : Map Text Text → k.State → k.State
  umount_all [] s = s
  umount_all ((source, target) ∷ mounts) s = elim (c_string target) [
    | ok p ↦ umount_all mounts (k.umount p s).1
    | err e ↦ umount_all mounts s
  ]

  unfoldable pub cleanup : BtrfsRootMounts k → BtrfsRootMounts k
  unfolding umount_all
  cleanup s = record { mounts = []; kernel = umount_all s.mounts s.kernel }
