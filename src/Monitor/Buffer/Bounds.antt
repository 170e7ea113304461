-- ===== src/Monitor/Buffer/Bounds.antt =====
-- The walk stays in the buffer, and its fuel is enough.
use pkgundo.Prelude.{
  not, if-post, ◌||◌, ℕ, zero, suc, ◌+◌, ◌≤◌, ◌<◌, Option, none, some, if◌then◌else◌, ◌==◌, ltb,
  length, All, ◌≡◌, refl, arith,
}
use pkgundo.System.{Bytes}
use pkgundo.Monitor.Buffer.{
  byte_at, u16_at, RawEvent, metadata_at, metadata_size, info_slice, events_from, parse_events,
  dfid_name, metadata_version,
}

-- A record that was found has its header and all of its bytes before `end`.
abbrev pub EndsBy : ℕ → Option (ℕ × ℕ) → Type 0
EndsBy end none = Unit
EndsBy end (some (at, len)) = ((at + 4 ≤ end) × (at + len ≤ end)) × (0 < len)

info_slice-EndsBy :
    (fuel : ℕ) (buf : Bytes) (at end : ℕ) (found : Option (ℕ × ℕ))
    → EndsBy end found
    → EndsBy end (info_slice fuel buf at end found)
unfolding info_slice
info_slice-EndsBy zero buf at end found inside = inside
info_slice-EndsBy (suc fuel) buf at end found inside =
    if-post (EndsBy end) (ltb end (at + 4)) (λ over. inside)
      (λ fits.
        if-post (EndsBy end) (u16_at buf (at + 2) == 0 || ltb end (at + u16_at buf (at + 2)))
          (λ over. inside)
          (λ whole.
            info_slice-EndsBy fuel buf (at + u16_at buf (at + 2)) end
              (if byte_at buf at == dfid_name then some (at, u16_at buf (at + 2)) else found)
              (if-post (EndsBy end) (byte_at buf at == dfid_name)
                (λ named. ((ground arith, ground arith), ground arith)) (λ other. inside))))

-- An event has its metadata and all of its bytes in the buffer, takes some, and so has its record.
abbrev pub IsInside : Bytes → RawEvent → Type 0
IsInside buf e =
    ((e.offset + metadata_size ≤ length buf) × (e.offset + e.meta.event_len ≤ length buf))
    × ((0 < e.meta.event_len) × EndsBy (e.offset + e.meta.event_len) e.info)

events_from-IsInside :
    (fuel : ℕ) (buf : Bytes) (offset : ℕ) → All (IsInside buf) (events_from fuel buf offset)
unfolding events_from
events_from-IsInside zero buf offset = tt
events_from-IsInside (suc fuel) buf offset =
    let meta = metadata_at buf offset in
    if-post (All (IsInside buf)) (ltb (length buf) (offset + metadata_size)) (λ over. tt)
      (λ fits.
        if-post (All (IsInside buf)) (not (meta.vers == metadata_version) || meta.event_len == 0)
          (λ bad. tt)
          (λ good.
            if-post (All (IsInside buf)) (ltb (length buf) (offset + meta.event_len)) (λ over. tt)
              (λ whole. (
                (
                  (ground arith, ground arith),
                  (
                    ground arith,
                    info_slice-EndsBy (suc (length buf)) buf (offset + meta.metadata_len)
                        (offset + meta.event_len) none tt,
                  ),
                ),
                events_from-IsInside fuel buf (offset + meta.event_len),
              ))))

-- No read is outside of what the kernel wrote into the buffer: each event has its metadata and its
-- length in it, is not empty, and has its record, with the record's header, before its end.
pub parse_events-IsInside : (buf : Bytes) → All (IsInside buf) (parse_events buf)
unfolding parse_events
parse_events-IsInside buf = events_from-IsInside (suc (length buf)) buf 0

-- More fuel than is left of the event changes nothing.
info_slice_fuel :
    (f g : ℕ) (buf : Bytes) (at end : ℕ) (found : Option (ℕ × ℕ))
    → end < at + f
    → end < at + g
    → info_slice f buf at end found ≡ info_slice g buf at end found
unfolding info_slice
info_slice_fuel zero zero buf at end found enough also = refl
info_slice_fuel zero (suc g) buf at end found enough also = ground arith
info_slice_fuel (suc f) zero buf at end found enough also = ground arith
info_slice_fuel (suc f) (suc g) buf at end found enough also = ground (
  arith,
  info_slice_fuel f g buf (at + u16_at buf (at + 2)) end
      (if byte_at buf at == dfid_name then some (at, u16_at buf (at + 2)) else found),
)

-- More fuel than is left of the buffer changes nothing: the walk ends of itself.
events_from_fuel :
    (f g : ℕ) (buf : Bytes) (offset : ℕ)
    → length buf < offset + f
    → length buf < offset + g
    → events_from f buf offset ≡ events_from g buf offset
unfolding events_from
events_from_fuel zero zero buf offset enough also = refl
events_from_fuel zero (suc g) buf offset enough also = ground arith
events_from_fuel (suc f) zero buf offset enough also = ground arith
events_from_fuel (suc f) (suc g) buf offset enough also =
    ground (arith, events_from_fuel f g buf (offset + (metadata_at buf offset).event_len))

-- Both walks end of themselves: with more fuel than they have, the walk over the buffer finds the
-- same events, and the walk over the records of an event that ends in the buffer the same record.
pub walks_end :
    (buf : Bytes) (more at end : ℕ)
    → end ≤ length buf
    → (events_from (suc (length buf) + more) buf 0 ≡ parse_events buf)
      × (info_slice (suc (length buf) + more) buf at end none
          ≡ info_slice (suc (length buf)) buf at end none)
unfolding parse_events
walks_end buf more at end inside = (
  events_from_fuel (suc (length buf) + more) (suc (length buf)) buf 0 (omega arith) (omega arith),
  info_slice_fuel (suc (length buf) + more) (suc (length buf)) buf at end none (omega arith)
      (omega arith),
)
