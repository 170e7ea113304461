-- ===== src/Archive/Tests.antt =====
-- A file that is archived.
use pkgundo.Prelude.{
  Text, lit, text_eq, false, [], ◌∷◌, none, ok, ◌≡◌, refl, decimal, starts_with, ends_with,
  trim_start_matches, split_on,
}
use pkgundo.System.Memory.{memory, memory-IsLawful, Differ, find, is_found, copied}
use pkgundo.Exec.{World}
use pkgundo.Paths.{components, to_text, join, body, parent, init}
use pkgundo.Transaction.Tests.{world_with}
use pkgundo.Archive.{
  Codec, archive_path_for, meta_path_for, with_suffix, archive_file, archive_present, archive_to,
  create_parent, save, save_content, describe, write_metadata, record_archive, insert_archive_row,
  archive_row,
}
use pkgundo.Archive.{
  recover_entry, recover_by, recover_copy, make_parent, report_if, restore_ownership, restore_from,
  link_target, read_metadata, decode_result,
}
use pkgundo.Archive.Recovery.{recover_entry-read}
use pkgundo.Archive.Kept.{IsKept, archive_file-IsKept}

abbrev pub plain_codec : Codec
plain_codec = record { encode = λ m. m.original_path; decode = λ c. none }

abbrev pub a_path : Text
unfolding lit
a_path = lit "/root/.cache/x"

abbrev pub a_root : Text
unfolding lit
a_root = lit "/a"

abbrev pub a_world : World memory
a_world = world_with ((a_path, 1 ∷ 2 ∷ []) ∷ [])

pub a_path_found : find a_path a_world.state ≡ ok (1 ∷ 2 ∷ [])
unfolding find text_eq lit
a_path_found = refl

pub a_place_differs :
    Differ (meta_path_for (archive_path_for a_root 1 a_path)) (archive_path_for a_root 1 a_path)
unfolding meta_path_for archive_path_for with_suffix components to_text join text_eq lit decimal
    starts_with ends_with trim_start_matches split_on body
a_place_differs = refl

pub a_path_differs : Differ a_path (archive_path_for a_root 1 a_path)
unfolding archive_path_for join text_eq lit decimal starts_with ends_with trim_start_matches
a_path_differs = refl

pub a_path_archived : (archive_file memory plain_codec a_root 1 a_path false a_world).0 ≡ ok tt
unfolding archive_file archive_present archive_to create_parent save save_content describe
    write_metadata record_archive insert_archive_row archive_row find is_found text_eq lit
    archive_path_for join decimal starts_with ends_with trim_start_matches components split_on body
    parent init copied to_text
a_path_archived = refl

archive_file-IsKept_example :
    IsKept memory plain_codec memory-IsLawful 1 a_path
      (archive_path_for a_root 1 a_path)
      (1 ∷ 2 ∷ [])
      (archive_file memory plain_codec a_root 1 a_path false a_world).1
unfolding find is_found text_eq lit
archive_file-IsKept_example =
    archive_file-IsKept memory plain_codec memory-IsLawful a_root 1 a_path false (1 ∷ 2 ∷ [])
      a_world tt a_place_differs a_path_differs refl refl a_path_found a_path_archived

abbrev a_copy : Text
a_copy = lit "/a/1/x"

abbrev archive_world : World memory
archive_world = world_with ((a_copy, 3 ∷ []) ∷ [])

recover_entry-read_example :
    find a_path (recover_entry memory plain_codec a_path a_copy archive_world).1.state ≡ ok (3 ∷ [])
unfolding recover_entry recover_by recover_copy make_parent report_if restore_ownership restore_from
    link_target read_metadata decode_result meta_path_for with_suffix find is_found copied text_eq
    lit components parent init body to_text split_on starts_with
recover_entry-read_example =
    recover_entry-read memory plain_codec memory-IsLawful a_path a_copy (3 ∷ []) archive_world refl
      refl refl refl refl
