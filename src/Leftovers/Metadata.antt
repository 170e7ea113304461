-- ===== src/Leftovers/Metadata.antt =====
-- `derive_signals` of `src/scan_leftovers/mod.rs` and what it calls: what the metadata of a package
-- says about the names of its directories.
use pkgundo.Prelude.{
  Text, lit, text_eq, lines, trim, trim_start_matches, is_whitespace, strip_prefix, starts_with,
  ends_with, contains, split_on, split_once, split_whitespace, join_with, reverse, ◌||◌, ℕ, zero,
  suc, List, [], ◌∷◌, ◌++◌, map, head?, Option, none, some, if◌then◌else◌, ◌==◌, length,
}
use pkgundo.System.{Os}
use pkgundo.Paths.{components, file_name}
use pkgundo.TrackedApps.Resolve.{executable_binaries_from_dpkg_listing}

pub record Signals : Type 0 where
  pub structural : List Text
  pub likely : List Text
  pub raw : Text

-- The interface to a package manager, whose answers are the same throughout a scan.
pub record PackageMetadataSource : Type 0 where
  pub query_info : Text → Option Text
  pub query_files : Text → Option (List Text)
  pub cached_archive : Text → Option Text
  pub archive_pkginfo : Text → Option Text
  pub archive_file_list : Text → Option (List Text)
  pub read_file : Text → Option Text
  pub read_file_in_archive : Text → Text → Option Text

-- `s.trim_start_matches(prefix)`, on fuel: what is left is shorter.
trim_all : ℕ → Text → Text → Text
trim_all zero prefix s = s
trim_all (suc fuel) prefix s = elim (strip_prefix s prefix) [
  | none ↦ s
  | some rest ↦ trim_all fuel prefix rest
]

unfoldable trim_prefixes : Text → Text → Text
unfolding trim_all
trim_prefixes prefix s = trim_all (length s) prefix s

first_or_empty : Option Text → Text
first_or_empty none = []
first_or_empty (some s) = s

-- The first piece between the characters; there always is one.
first_piece : ℕ → Text → Text
unfolding first_or_empty
first_piece c s = first_or_empty (head? (split_on (λ d. d == c) s))

or_same : Text → Option Text → Text
or_same s none = s
or_same s (some rest) = rest

non_empty_value : Option Text → Option Text
unfolding trim text_eq
non_empty_value none = none
non_empty_value (some v) = let value = trim v in if text_eq value [] then none else some value

-- What follows the separator after the key at the start of a line, if it is not empty.
value_after : Text → Text → Text → Option Text
unfolding non_empty_value
value_after line key separator = elim (strip_prefix line key) [
  | none ↦ none
  | some rest ↦ non_empty_value (strip_prefix (trim_start_matches is_whitespace rest) separator)
]

or_else : Option Text → Option Text → Option Text
or_else (some v) next = some v
or_else none next = next

field_in : List Text → Text → Text → Option Text
unfolding value_after or_else lit
field_in [] qi_key pkginfo_key = none
field_in (line ∷ ls) qi_key pkginfo_key =
    or_else (value_after line qi_key (lit ":"))
      (or_else (value_after line pkginfo_key (lit "=")) (field_in ls qi_key pkginfo_key))

unfoldable pub extract_field : Text → Text → Text → Option Text
unfolding field_in lines
extract_field text qi_key pkginfo_key = field_in (lines text) qi_key pkginfo_key

-- The part of a text after the first occurrence of another.
after_text : Text → Text → Option Text
unfolding strip_prefix
after_text part [] = strip_prefix [] part
after_text part (c ∷ s) = elim (strip_prefix (c ∷ s) part) [
  | none ↦ after_text part s
  | some rest ↦ some rest
]

-- The part before the first occurrence.
before_text : Text → Text → Option Text
unfolding starts_with
before_text part [] = if starts_with [] part then some [] else none
before_text part (c ∷ s) =
    let rest = before_text part s in
    if starts_with (c ∷ s) part then some [] else elim rest [ none ↦ none | some t ↦ some (c ∷ t) ]

-- `Path::file_stem` of a file name.
stem : Text → Text
unfolding split_once
stem name = elim (split_once 0x2e (reverse name)) [
  | none ↦ name
  | some (extension, []) ↦ name
  | some (extension, rest) ↦ reverse rest
]

module _ (lower : Text → Text) where
  unfoldable pub vendor_token_from_url : Text → Text
  unfolding trim_prefixes trim first_piece or_same strip_prefix lit
  vendor_token_from_url url =
      let stripped = trim_prefixes (lit "http://") (trim_prefixes (lit "https://") (trim url)) in
      let host = first_piece 0x2f stripped in
      lower (first_piece 0x2e (or_same host (strip_prefix host (lit "www."))))

  vendor_of : Option Text → List Text
  vendor_of none = []
  vendor_of (some url) = vendor_token_from_url url ∷ []

  described : Option Text → Option Text
  unfolding contains lit
  described none = none
  described (some text) = if contains text (lit "://") then some text else none

  lowered : Option Text → List Text
  lowered none = []
  lowered (some s) = lower s ∷ []

  unfoldable pub apply_metadata : Signals → Text → Signals
  unfolding vendor_of described lowered lit
  apply_metadata signals text = record signals {
    likely = lowered (extract_field text (lit "Name") (lit "pkgname")) ++ signals.likely;
    structural =
        vendor_of (extract_field text (lit "URL") (lit "url"))
        ++ vendor_of (described (extract_field text (lit "Description") (lit "pkgdesc")))
        ++ signals.structural;
  }

  name_of : Text → List Text
  unfolding lowered
  name_of path = lowered (file_name (components path))

  -- The tokens and the binaries of a line of a desktop entry.
  binary_of : Option Text → List Text
  unfolding name_of
  binary_of none = []
  binary_of (some bin) = name_of bin

  entry_line : Text → List Text × List Text
  unfolding binary_of trim strip_prefix split_whitespace lit
  entry_line line = (
    elim (strip_prefix line (lit "StartupWMClass=")) [ none ↦ [] | some v ↦ lower (trim v) ∷ [] ],
    elim (strip_prefix line (lit "Exec=")) [
      | none ↦ []
      | some v ↦ binary_of (head? (split_whitespace v))
    ],
  )

  entry_lines : List Text → List Text × List Text
  unfolding entry_line
  entry_lines [] = ([], [])
  entry_lines (line ∷ ls) =
      let (tokens, binaries) = entry_line line in
      let (more, others) = entry_lines ls in (tokens ++ more, binaries ++ others)

  content_lines : Option Text → List Text × List Text
  unfolding entry_lines lines
  content_lines none = ([], [])
  content_lines (some content) = entry_lines (lines content)

  stems : Option Text → List Text
  unfolding stem
  stems none = []
  stems (some name) = lower (stem name) ∷ []

  lower_parts : List Text → List Text
  unfolding text_eq
  lower_parts [] = []
  lower_parts (part ∷ parts) =
      let rest = lower_parts parts in if text_eq part [] then rest else lower part ∷ rest

  -- The segments of the first `<id>` of an AppStream file.
  id_tokens : Option Text → List Text
  unfolding lower_parts after_text before_text trim split_on lit
  id_tokens none = []
  id_tokens (some content) = elim (after_text (lit "<id>") content) [
    | none ↦ []
    | some rest ↦ elim (before_text (lit "</id>") rest) [
      | none ↦ []
      | some id ↦ lower_parts (split_on (λ c. c == 0x2e) (trim id))
    ]
  ]

  path_tokens : (Text → Option Text) → Text → List Text × List Text
  unfolding content_lines stems id_tokens ends_with text_eq lit
  path_tokens read path =
      let (tokens, binaries) = content_lines (read path) in
      if ends_with path (lit "/") || text_eq path []
      then ([], [])
      else if ends_with path (lit ".desktop")
      then (stems (file_name (components path)) ++ tokens, binaries)
      else if ends_with path (lit ".metainfo.xml") || ends_with path (lit ".appdata.xml")
      then (id_tokens (read path), [])
      else ([], [])

  unfoldable pub collect_desktop_and_appstream_tokens :
      (Text → Option Text) → List Text → List Text × List Text
  unfolding path_tokens trim
  collect_desktop_and_appstream_tokens read [] = ([], [])
  collect_desktop_and_appstream_tokens read (line ∷ ls) =
      let (tokens, binaries) = path_tokens read (trim line) in
      let (more, others) = collect_desktop_and_appstream_tokens read ls in
      (tokens ++ more, binaries ++ others)

  names_of : List Text → List Text
  unfolding name_of
  names_of [] = []
  names_of (path ∷ paths) = name_of path ++ names_of paths

  module _ (os : Os) where
    add_files : (Text → Option Text) → os.State → Option (List Text) → Signals → Signals
    unfolding names_of join_with lit
    add_files read s none signals = signals
    add_files read s (some files) signals =
        let binaries = executable_binaries_from_dpkg_listing os (join_with (lit "\n") files) s in
        let (tokens, more) = collect_desktop_and_appstream_tokens read files in
        record signals {
          structural = tokens ++ signals.structural;
          likely = more ++ names_of binaries ++ signals.likely;
        }

    add_pkginfo : Option Text → Signals → Signals
    add_pkginfo none signals = signals
    add_pkginfo (some pkginfo) signals = apply_metadata signals pkginfo

    abs_path : Text → Text
    unfolding trim_prefixes lit
    abs_path path = lit "/" ++ trim_prefixes (lit "/") (trim_prefixes (lit "./") path)

    abs_paths : Option (List Text) → Option (List Text)
    unfolding abs_path
    abs_paths none = none
    abs_paths (some files) = some (map abs_path files)

    from_archive : PackageMetadataSource → Option Text → Signals → Text → os.State → Signals
    unfolding add_files add_pkginfo abs_paths trim_prefixes lit
    from_archive source none signals app s = signals
    from_archive source (some archive) signals app s =
        add_files (λ path. source.read_file_in_archive archive (trim_prefixes (lit "/") path)) s
          (abs_paths (source.archive_file_list archive))
          (add_pkginfo (source.archive_pkginfo archive)
            (record signals { likely = lower app ∷ signals.likely }))

    signals_by : PackageMetadataSource → Option Text → Signals → Text → os.State → Signals
    unfolding from_archive add_files
    signals_by source none signals app s =
        from_archive source (source.cached_archive app) signals app s
    signals_by source (some info) signals app s =
        add_files source.read_file s (source.query_files app)
          (apply_metadata (record signals { likely = lower app ∷ signals.likely }) info)

    unfoldable pub derive_signals : Text → PackageMetadataSource → os.State → Signals
    unfolding signals_by
    derive_signals app source s =
        signals_by source (source.query_info app)
          (record { structural = []; likely = []; raw = lower app }) app s
