-- ===== src/Store/Objects/Query.antt =====
-- The readers of pkg/store/object.go: one object by time or block, and lists of handles.
use ts_store.Prelude.{
  ℕ, zero, suc, ◌+◌, ◌-◌, Bool, true, false, ◌&&◌, ◌||◌, List, [], ◌∷◌, ◌++◌, length, leb, ltb,
  ◌==◌, if◌then◌else◌,
}
use mathlib.Core.List.{reverse}
use ts_store.Prelude.Int.{ℤ, pos, ltb_ℤ, leb_ℤ, ◌==ℤ◌}
use ts_store.Word.{sub32, sub_int64}
use ts_store.Block.{block_header_size}
use ts_store.Block.BlockHeader
use ts_store.Store.State.Errors.{
  Result, ok, err, ◌>>=◌, out_of_fuel, invalid_timestamp, timestamp_not_found, block_out_of_range,
  negative_capacity,
}
use ts_store.Store.State.{Store, read_block_header, read_index_entry, read_object_header}
use ts_store.Store.Packed.{ObjectHandle, len32}
use ts_store.Store.Packed.Read.{
  read_packed_object_data, scan_block_for_timestamp, scan_block_objects,
}
use ts_store.Store.Index.{
  active_block_count, block_num_from_offset, find_block_by_time_locked, find_offset_for_time_locked,
  get_oldest_timestamp_locked, when_open,
}
use ts_store.Store.Objects.{read_block_data_locked}

-- The handle of a V1 block, whose offset and span count stay 0.
abbrev v1_handle : ℤ → ℕ → List ℕ → ObjectHandle
v1_handle timestamp block_num bs = record {
  timestamp = timestamp;
  block_num = block_num;
  offset = 0;
  size = len32 bs;
  span_count = 0;
}

unfoldable pub get_object_by_time : ℤ → Store → Result (List ℕ × ObjectHandle)
get_object_by_time timestamp s = when_open s (do
  block_num ← find_block_by_time_locked timestamp s
  header ← read_block_header block_num s
  if BlockHeader.is_packed header then scan_block_for_timestamp block_num timestamp s else (do
    entry ← read_index_entry block_num s
    if entry.timestamp ==ℤ timestamp
        then (do bs ← read_block_data_locked block_num s; ok (bs, v1_handle timestamp block_num bs))
        else err timestamp_not_found))

unfoldable pub get_object_by_block : ℕ → Store → Result (List ℕ × ObjectHandle)
get_object_by_block block_num s = when_open s (
    if leb s.meta.num_blocks block_num then err block_out_of_range else (do
      header ← read_block_header block_num s
      if BlockHeader.is_packed header
          then (do
            obj_header ← read_object_header block_num block_header_size s
            bs ← read_packed_object_data block_num block_header_size s
            ok (
              bs,
              record {
                timestamp = obj_header.timestamp;
                block_num = block_num;
                offset = block_header_size;
                size = obj_header.data_len;
                span_count = 1;
              },
            ))
          else (do
            bs ← read_block_data_locked block_num s
            ok (bs, v1_handle header.timestamp block_num bs))))

-- `limit <= 0 || len(handles) < limit`
abbrev pub wants_more : ℤ → List ObjectHandle → Bool
wants_more limit acc = leb_ℤ limit (pos 0) || ltb_ℤ (pos (length acc)) limit

-- `limit > 0 && len(handles) >= limit`
abbrev pub is_full : ℤ → List ObjectHandle → Bool
is_full limit acc = ltb_ℤ (pos 0) limit && leb_ℤ limit (pos (length acc))

-- The handles of one block; a block that cannot be read is passed over (`continue`).
abbrev pub handles_or_skip : Result (List ObjectHandle) → Result (List ObjectHandle)
handles_or_skip (ok hs) = ok hs
handles_or_skip (err out_of_fuel) = err out_of_fuel
handles_or_skip (err _) = ok []

-- The inner loop of `GetOldestObjects`.
unfoldable pub append_oldest : ℤ → List ObjectHandle → List ObjectHandle → List ObjectHandle
append_oldest limit acc [] = acc
append_oldest limit acc (h ∷ hs) = elim (is_full limit (acc ++ (h ∷ []))) [
  | true ↦ acc ++ (h ∷ [])
  | false ↦ append_oldest limit (acc ++ (h ∷ [])) hs
]

-- The outer loop, with `rounds` blocks left from offset i on.
unfoldable pub oldest_from : ℕ → ℕ → ℤ → List ObjectHandle → Store → Result (List ObjectHandle)
oldest_from zero i limit acc s = ok acc
oldest_from (suc rounds) i limit acc s = elim (wants_more limit acc) [
  | false ↦ ok acc
  | true ↦ do
    hs ← handles_or_skip (scan_block_objects (block_num_from_offset s i) s)
    oldest_from rounds (i + 1) limit (append_oldest limit acc hs) s
]

unfoldable pub get_oldest_objects : ℤ → Store → Result (List ObjectHandle)
get_oldest_objects limit s = when_open s (oldest_from (active_block_count s) 0 limit [] s)

-- The inner loop of `GetNewestObjects`, over the block's handles, newest first.
unfoldable pub append_newest : ℤ → List ObjectHandle → List ObjectHandle → List ObjectHandle
append_newest limit acc [] = acc
append_newest limit acc (h ∷ hs) = elim (wants_more limit acc) [
  | true ↦ append_newest limit (acc ++ (h ∷ [])) hs
  | false ↦ acc
]

-- The outer loop, at offset `i - 1` first and then down to 0.
unfoldable pub newest_from : ℕ → ℤ → List ObjectHandle → Store → Result (List ObjectHandle)
newest_from zero limit acc s = ok acc
newest_from (suc i) limit acc s = elim (wants_more limit acc) [
  | false ↦ ok acc
  | true ↦ do
    hs ← handles_or_skip (scan_block_objects (block_num_from_offset s i) s)
    newest_from i limit (append_newest limit acc (reverse hs)) s
]

-- `make` with a negative limit as the capacity panics.
unfoldable pub get_newest_objects : ℤ → Store → Result (List ObjectHandle)
get_newest_objects limit s = when_open s (
    if ltb_ℤ limit (pos 0)
    then err negative_capacity
    else newest_from (active_block_count s) limit [] s)

-- The inner loop of `GetObjectsInRange`: the handles so far, and whether to return at once.
unfoldable pub append_in_range :
    ℤ → ℤ → ℤ → List ObjectHandle → List ObjectHandle → List ObjectHandle × Bool
append_in_range start end limit acc [] = (acc, false)
append_in_range start end limit acc (h ∷ hs) = elim (ltb_ℤ end h.timestamp) [
  | true ↦ (acc, true)
  | false ↦ elim (leb_ℤ start h.timestamp) [
    | false ↦ append_in_range start end limit acc hs
    | true ↦ elim (is_full limit (acc ++ (h ∷ []))) [
      | true ↦ (acc ++ (h ∷ []), true)
      | false ↦ append_in_range start end limit (acc ++ (h ∷ [])) hs
    ]
  ]
]

unfoldable pub range_from :
    ℕ → ℕ → ℤ → ℤ → ℤ → List ObjectHandle → Store → Result (List ObjectHandle)
range_from zero offset start end limit acc s = ok acc
range_from (suc rounds) offset start end limit acc s = do
  hs ← handles_or_skip (scan_block_objects (block_num_from_offset s offset) s)
  let (acc', done) = append_in_range start end limit acc hs
  elim done [ true ↦ ok acc' | false ↦ range_from rounds (offset + 1) start end limit acc' s ]

-- The rounds of `for offset := first; offset <= last+1 && offset < count; offset++`.
abbrev pub range_rounds : ℕ → ℕ → ℕ → ℕ
range_rounds first last count = (if ltb (last + 2) count then last + 2 else count) - first

unfoldable pub objects_between : ℤ → ℤ → ℤ → Store → Result (List ObjectHandle)
objects_between start end limit s = if ltb_ℤ end start then err invalid_timestamp else (do
  let count = active_block_count s
  start_offset ← find_offset_for_time_locked start 0 (sub32 count 1) true s
  end_offset ← find_offset_for_time_locked end 0 (sub32 count 1) false s
  range_from (range_rounds start_offset end_offset count) start_offset start end limit [] s)

-- `time.Now` is the argument `now`. A start of 0 is the oldest timestamp, an end of 0 is now.
unfoldable pub get_objects_in_range : ℤ → ℤ → ℤ → ℤ → Store → Result (List ObjectHandle)
get_objects_in_range now start end limit s = when_open s (
    let end' = (if end ==ℤ pos 0 then now else end) in
    if active_block_count s == 0
    then ok []
    else (if start ==ℤ pos 0
        then (elim (get_oldest_timestamp_locked s) [
          | err e ↦ ok []
          | ok oldest ↦ objects_between oldest end' limit s
        ])
        else objects_between start end' limit s))

-- `GetObjectsSince`, whose clock reading `now` may differ from the later one of `GetObjectsInRange`.
unfoldable pub get_objects_since : ℤ → ℤ → ℤ → ℤ → Store → Result (List ObjectHandle)
get_objects_since now later d limit s = get_objects_in_range later (sub_int64 now d) now limit s
