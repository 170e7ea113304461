-- ===== src/Classifier.antt =====
-- `src/classifier/mod.rs`: the category of a path, and the rollback action of a category.
-- What the disk says of a path, `Path::is_symlink`, is an argument.
pub mod Protection
mod Tests
use pkgundo.Prelude.{Text, lit, starts_with, contains, ends_with, text_eq, any, if◌then◌else◌}
use pkgundo.Prelude.{Bool, true, false, ◌||◌, List, [], ◌∷◌, String}

pub data FileCategory : Type 0 where
  binary config cache runtime_state temp_file log symlink user_data library system_cache package_db
        service_unit unknown :
      FileCategory

-- One of the prefixes stands at the start of the path.
starts_any : Text → List String → Bool
starts_any s [] = false
starts_any s (p ∷ ps) = starts_with s (lit p) || starts_any s ps

contains_any : Text → List String → Bool
contains_any s [] = false
contains_any s (p ∷ ps) = contains s (lit p) || contains_any s ps

is_home : Text → Bool
is_home s =
    (starts_with s (lit "/home/") || text_eq s (lit "/home"))
    || (starts_with s (lit "/root/") || text_eq s (lit "/root"))

is_package_db : Text → Bool
is_package_db s =
    starts_any s ("/var/lib/pacman" ∷ "/var/lib/dpkg" ∷ "/var/lib/rpm" ∷ "/var/lib/dnf" ∷ [])

is_generated_cache : Text → Bool
is_generated_cache s =
    starts_with s (lit "/var/cache/")
    || contains s (lit "/icons/hicolor/icon-theme.cache")
    || contains s (lit "font")
    || starts_with s (lit "/usr/share/info/dir")
    || contains s (lit "mime")
    || ends_with s (lit ".cache")

is_package_cache : Text → Bool
is_package_cache s = starts_with s (lit "/var/cache")

is_temp : Text → Bool
is_temp s = starts_any s ("/tmp/" ∷ "/var/tmp/" ∷ [])

is_runtime : Text → Bool
is_runtime s = starts_any s ("/run/" ∷ "/var/run/" ∷ [])

is_log : Text → Bool
is_log s = starts_any s ("/var/log/" ∷ [])

is_service_unit : Text → Bool
is_service_unit s = starts_any s ("/usr/lib/systemd/" ∷ "/etc/systemd/" ∷ [])

is_config : Text → Bool
is_config s = starts_any s ("/etc/" ∷ [])

is_library : Text → Bool
is_library s = starts_any s ("/usr/lib/" ∷ "/lib/" ∷ "/lib64/" ∷ "/usr/lib64/" ∷ [])

is_cache_in_library : Text → Bool
is_cache_in_library s = contains_any s (".cache" ∷ "/locale/" ∷ [])

is_binary : Text → Bool
is_binary s = starts_any s ("/usr/bin/" ∷ "/usr/sbin/" ∷ "/bin/" ∷ "/sbin/" ∷ [])

is_share : Text → Bool
is_share s = starts_any s ("/usr/share/" ∷ [])

is_cache_in_share : Text → Bool
is_cache_in_share s = contains_any s ("icons" ∷ "pixmaps" ∷ "applications" ∷ "mime" ∷ "fonts" ∷ [])

-- The tests of `classify_path` that follow those for home directories.
classify_system : Bool → Text → FileCategory
classify_system on_disk_symlink s =
    if is_package_db s
    then package_db
    else if is_generated_cache s
    then cache
    else if is_package_cache s
    then cache
    else if is_temp s
    then temp_file
    else if is_runtime s
    then runtime_state
    else if is_log s
    then log
    else if is_service_unit s
    then service_unit
    else if is_config s
    then config
    else if is_library s
    then (if is_cache_in_library s then system_cache else library)
    else if is_binary s
    then binary
    else if is_share s
    then (if is_cache_in_share s then system_cache else binary)
    else if on_disk_symlink
    then symlink
    else unknown

pub classify_path : Bool → Text → FileCategory
classify_path on_disk_symlink s = if is_home s then user_data else classify_system on_disk_symlink s

pub data RollbackAction : Type 0 where
  remove_safe archive_and_restore remove_cache skip ask_user never_touch : RollbackAction

pub rollback_action_for_category : FileCategory → RollbackAction
rollback_action_for_category user_data = never_touch
rollback_action_for_category package_db = skip
rollback_action_for_category cache = remove_cache
rollback_action_for_category system_cache = remove_cache
rollback_action_for_category temp_file = remove_cache
rollback_action_for_category runtime_state = skip
rollback_action_for_category log = skip
rollback_action_for_category config = archive_and_restore
rollback_action_for_category binary = remove_safe
rollback_action_for_category library = remove_safe
rollback_action_for_category service_unit = archive_and_restore
rollback_action_for_category symlink = remove_safe
rollback_action_for_category unknown = ask_user

-- `Display` for `FileCategory`; `{:?}` prints the same names.
pub category_name : FileCategory → Text
category_name binary = lit "Binary"
category_name config = lit "Config"
category_name cache = lit "Cache"
category_name runtime_state = lit "RuntimeState"
category_name temp_file = lit "TempFile"
category_name log = lit "Log"
category_name symlink = lit "Symlink"
category_name user_data = lit "UserData"
category_name library = lit "Library"
category_name system_cache = lit "SystemCache"
category_name package_db = lit "PackageDb"
category_name service_unit = lit "ServiceUnit"
category_name unknown = lit "Unknown"
