-- ===== src/BtrfsMount/Tests.antt =====
-- The table of a machine with one mount.
use pkgundo.Prelude.{Text, lit, lines, some, ◌≡◌, refl, All}
use pkgundo.Paths.{components, path_starts_with}
use pkgundo.BtrfsMount.{MountEntry, byte_len, find_mount_source, parse_mount_line}
use pkgundo.BtrfsMount.Longest.{Covers, IsWithin, find_mount_source_longest}

abbrev a_table : Text
a_table = lit "36 35 8:1 / / rw,relatime shared:1 - ext4 /dev/sda1 rw\n"

a_source : find_mount_source a_table (lit "/home/ann") ≡ some (lit "/dev/sda1", lit "ext4")
unfolding find_mount_source parse_mount_line lines path_starts_with components lit
a_source = refl

find_mount_source_longest_example :
    (e : MountEntry) × ((Covers (lit "/home/ann") e
        × ((e.source ≡ lit "/dev/sda1") × (e.fstype ≡ lit "ext4")))
      × All (IsWithin (lit "/home/ann") (byte_len e.mount_point)) (lines a_table))
find_mount_source_longest_example =
    find_mount_source_longest a_table (lit "/home/ann") (lit "/dev/sda1") (lit "ext4") a_source
