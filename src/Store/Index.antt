-- ===== src/Store/Index.antt =====
-- pkg/store/index.go: the circular index, searched by time.
pub mod Search
pub mod Range
use ts_store.Prelude.{
  ℕ, zero, suc, ◌+◌, ◌-◌, ◌/◌, ◌%◌, Bool, true, false, ◌&&◌, List, [], ◌∷◌, leb, ltb, ◌==◌, ◌≡◌, ap,
  if◌then◌else◌,
}
use ts_store.Prelude.Int.{ℤ, pos, ltb_ℤ, leb_ℤ, ◌==ℤ◌}
use ts_store.Word.{add32, sub32}
use ts_store.Block.BlockHeader.{BlockHeader}
use ts_store.Block.IndexEntry.{IndexEntry}
use ts_store.Store.State.Errors.{
  Result, ok, err, ◌>>=◌, out_of_fuel, empty_store, store_closed, invalid_timestamp,
  timestamp_not_found, block_out_of_range,
}
use ts_store.Store.State.{Store, read_index_entry, read_block_header}

unfoldable pub active_block_count : Store → ℕ
active_block_count s =
    if leb s.meta.tail_block s.meta.head_block
    then add32 (sub32 s.meta.head_block s.meta.tail_block) 1
    else add32 (add32 (sub32 s.meta.num_blocks s.meta.tail_block) s.meta.head_block) 1

-- Offset 0 is the tail, the oldest block.
unfoldable pub block_num_from_offset : Store → ℕ → ℕ
block_num_from_offset s offset = add32 s.meta.tail_block offset % s.meta.num_blocks

-- The index entry at an offset from the tail.
abbrev pub entry_at : Store → ℕ → Result IndexEntry
entry_at s offset = read_index_entry (block_num_from_offset s offset) s

-- The loop of `findBlockByTimeLocked`, which yields an offset; the bounds shrink in every round.
unfoldable pub search_block : ℕ → ℤ → ℕ → ℕ → ℕ → Store → Result ℕ
search_block zero timestamp left right result s = err out_of_fuel
search_block (suc fuel) timestamp left right result s = elim (leb left right) [
  | false ↦ ok result
  | true ↦ do
    let mid = add32 left right / 2
    entry ← entry_at s mid
    elim (entry.timestamp ==ℤ pos 0) [
      | true ↦ search_block fuel timestamp (add32 mid 1) right result s
      | false ↦ elim (entry.timestamp ==ℤ timestamp) [
        | true ↦ ok mid
        | false ↦ elim (ltb_ℤ entry.timestamp timestamp) [
          | true ↦ search_block fuel timestamp (add32 mid 1) right mid s
          | false ↦ elim (mid == 0) [
            | true ↦ ok result
            | false ↦ search_block fuel timestamp left (sub32 mid 1) result s
          ]
        ]
      ]
    ]
]

unfoldable pub find_block_by_time_locked : ℤ → Store → Result ℕ
find_block_by_time_locked timestamp s = elim (s.meta.head_block == s.meta.tail_block) [
  | true ↦ do
    entry ← read_index_entry s.meta.head_block s
    elim (entry.timestamp ==ℤ pos 0) [ true ↦ err empty_store | false ↦ ok s.meta.head_block ]
  | false ↦ do
    let count = active_block_count s
    offset ← search_block (suc count) timestamp 0 (sub32 count 1) 0 s
    ok (block_num_from_offset s offset)
]

-- `if s.closed { return ErrStoreClosed }`
abbrev pub when_open : {A : Type 0} → Store → Result A → Result A
when_open s r = if s.closed then err store_closed else r

pub when_open-IsOpen :
    {A : Type 0} (s : Store) (r : Result A) → s.closed ≡ false → when_open s r ≡ r
when_open-IsOpen s r h = ap (λ c. if c then err store_closed else r) h

unfoldable pub find_block_by_time : ℤ → Store → Result ℕ
find_block_by_time timestamp s = when_open s (find_block_by_time_locked timestamp s)

unfoldable pub find_block_by_time_exact : ℤ → Store → Result ℕ
find_block_by_time_exact timestamp s = when_open s (do
  block_num ← find_block_by_time_locked timestamp s
  entry ← read_index_entry block_num s
  if entry.timestamp ==ℤ timestamp then ok block_num else err timestamp_not_found)

-- The loop of `findOffsetForTimeLocked`. A failed read ends it with the result so far.
unfoldable pub search_offset : ℕ → ℤ → Bool → ℕ → ℕ → ℕ → Store → Result ℕ
search_offset zero timestamp find_first left right result s = err out_of_fuel
search_offset (suc fuel) timestamp find_first left right result s = elim (leb left right) [
  | false ↦ ok result
  | true ↦
      let mid = add32 left right / 2 in
      elim (entry_at s mid) [
        | err e ↦ ok result
        | ok entry ↦ elim find_first [
          | true ↦ elim (leb_ℤ timestamp entry.timestamp) [
            | true ↦ elim (mid == 0) [
              | true ↦ ok mid
              | false ↦ search_offset fuel timestamp true left (sub32 mid 1) mid s
            ]
            | false ↦ search_offset fuel timestamp true (add32 mid 1) right result s
          ]
          | false ↦ elim (leb_ℤ entry.timestamp timestamp) [
            | true ↦ search_offset fuel timestamp false (add32 mid 1) right mid s
            | false ↦ elim (mid == 0) [
              | true ↦ ok result
              | false ↦ search_offset fuel timestamp false left (sub32 mid 1) result s
            ]
          ]
        ]
      ]
]

unfoldable pub find_offset_for_time_locked : ℤ → ℕ → ℕ → Bool → Store → Result ℕ
find_offset_for_time_locked timestamp left right find_first s =
    search_offset (suc (suc right)) timestamp find_first left right left s

-- The blocks of `rounds` offsets from `offset` on whose entries lie in the range.
unfoldable pub collect_range : ℕ → ℕ → ℤ → ℤ → Store → Result (List ℕ)
collect_range zero offset start end s = ok []
collect_range (suc rounds) offset start end s = do
  entry ← entry_at s offset
  more ← collect_range rounds (offset + 1) start end s
  ok (
      if leb_ℤ start entry.timestamp && leb_ℤ entry.timestamp end
      then block_num_from_offset s offset ∷ more
      else more)

unfoldable pub find_blocks_in_range : ℤ → ℤ → Store → Result (List ℕ)
find_blocks_in_range start end s = when_open s (
    if ltb_ℤ end start then err invalid_timestamp else (do
      let count = active_block_count s
      if count == 0 then ok [] else (do
        start_offset ← find_offset_for_time_locked start 0 (sub32 count 1) true s
        end_offset ← find_offset_for_time_locked end 0 (sub32 count 1) false s
        if ltb end_offset start_offset
            then ok []
            else collect_range (end_offset + 1 - start_offset) start_offset start end s)))

-- `getNewestTimestampLocked` and `getOldestTimestampLocked`.
unfoldable pub timestamp_of_block : ℕ → Store → Result ℤ
timestamp_of_block block_num s = do
  entry ← read_index_entry block_num s
  if entry.timestamp ==ℤ pos 0 then err empty_store else ok entry.timestamp

unfoldable pub get_newest_timestamp_locked : Store → Result ℤ
get_newest_timestamp_locked s = timestamp_of_block s.meta.head_block s

unfoldable pub get_oldest_timestamp_locked : Store → Result ℤ
get_oldest_timestamp_locked s = timestamp_of_block s.meta.tail_block s

unfoldable pub get_newest_timestamp : Store → Result ℤ
get_newest_timestamp s = when_open s (get_newest_timestamp_locked s)

unfoldable pub get_oldest_timestamp : Store → Result ℤ
get_oldest_timestamp s = when_open s (get_oldest_timestamp_locked s)

unfoldable pub get_block_header : ℕ → Store → Result BlockHeader
get_block_header block_num s = when_open s (read_block_header block_num s)

unfoldable pub get_index_entry : ℕ → Store → Result IndexEntry
get_index_entry block_num s = when_open s (
    if leb s.meta.num_blocks block_num
    then err block_out_of_range
    else read_index_entry block_num s)
