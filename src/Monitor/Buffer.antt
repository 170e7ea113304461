-- ===== src/Monitor/Buffer.antt =====
-- The buffer that `read(2)` fills with events, as `read_events_filtered`, `read_events` and
-- `ExecWatch::read_exec_events` walk it. Numbers are little-endian. The walk reads nothing but the
-- buffer, so that it is done before the events are handled.
pub mod Bounds
use pkgundo.Prelude.{
  Bool, true, false, ◌||◌, not, ℕ, zero, suc, ◌+◌, ◌*◌, List, [], ◌∷◌, Option, none, some,
  if◌then◌else◌, ◌==◌, leb, ltb, length, get_elem?, take, drop,
}
use pkgundo.System.{Bytes}

abbrev pub or_zero : Option ℕ → ℕ
or_zero none = 0
or_zero (some b) = b

abbrev pub byte_at : Bytes → ℕ → ℕ
byte_at buf i = or_zero (get_elem? i buf)

abbrev pub u16_at : Bytes → ℕ → ℕ
u16_at buf i = byte_at buf i + byte_at buf (i + 1) * 256

abbrev pub u32_at : Bytes → ℕ → ℕ
u32_at buf i = u16_at buf i + u16_at buf (i + 2) * 65536

abbrev pub u64_at : Bytes → ℕ → ℕ
u64_at buf i = u32_at buf i + u32_at buf (i + 4) * 4294967296

pub record FanotifyEventMetadata : Type 0 where
  pub event_len : ℕ
  pub vers : ℕ
  pub metadata_len : ℕ
  pub mask : ℕ
  pub fd : ℕ
  pub pid : ℕ

abbrev pub metadata_size : ℕ
metadata_size = 24

abbrev pub metadata_version : ℕ
metadata_version = 3

unfoldable pub metadata_at : Bytes → ℕ → FanotifyEventMetadata
metadata_at buf offset = record {
  event_len = u32_at buf offset;
  vers = byte_at buf (offset + 4);
  metadata_len = u16_at buf (offset + 6);
  mask = u64_at buf (offset + 8);
  fd = u32_at buf (offset + 16);
  pid = u32_at buf (offset + 20);
}

-- `FAN_EVENT_INFO_TYPE_DFID_NAME`
abbrev pub dfid_name : ℕ
dfid_name = 2

-- The place and the length of the last record with a handle and a name, on fuel: each record takes
-- at least a byte.
unfoldable pub info_slice : ℕ → Bytes → ℕ → ℕ → Option (ℕ × ℕ) → Option (ℕ × ℕ)
info_slice zero buf at end found = found
info_slice (suc fuel) buf at end found =
    let info_len = u16_at buf (at + 2) in
    let more =
      info_slice fuel buf (at + info_len) end
        (if byte_at buf at == dfid_name then some (at, info_len) else found) in
    if ltb end (at + 4)
    then found
    else if info_len == 0 || ltb end (at + info_len)
    then found
    else more

-- An event of the buffer: where it begins, its metadata and its record.
pub record RawEvent : Type 0 where
  pub offset : ℕ
  pub meta : FanotifyEventMetadata
  pub info : Option (ℕ × ℕ)

abbrev event_at : Bytes → ℕ → RawEvent
event_at buf offset =
    let meta = metadata_at buf offset in
    record {
      offset = offset;
      meta = meta;
      info =
          info_slice (suc (length buf)) buf (offset + meta.metadata_len) (offset + meta.event_len)
            none;
    }

-- The events from an offset on, on fuel: each event takes at least a byte.
unfoldable pub events_from : ℕ → Bytes → ℕ → List RawEvent
events_from zero buf offset = []
events_from (suc fuel) buf offset =
    let meta = metadata_at buf offset in
    let more = events_from fuel buf (offset + meta.event_len) in
    if ltb (length buf) (offset + metadata_size)
    then []
    else if not (meta.vers == metadata_version) || meta.event_len == 0
    then []
    else if ltb (length buf) (offset + meta.event_len)
    then []
    else event_at buf offset ∷ more

unfoldable pub parse_events : Bytes → List RawEvent
unfolding events_from metadata_at info_slice
parse_events buf = events_from (suc (length buf)) buf 0

-- `&buf[at..at + len]`
abbrev pub slice : Bytes → ℕ × ℕ → Bytes
slice buf (at, len) = take len (drop at buf)
