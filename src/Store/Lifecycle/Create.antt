-- ===== src/Store/Lifecycle/Create.antt =====
-- `Create` (pkg/store/store.go, pkg/store/config.go) makes an empty store in good order.
use ts_store.Prelude.{
  ℕ, ◌+◌, ◌-◌, ◌*◌, ◌/◌, ◌^◌, ◌≤◌, ◌<◌, ◌≡◌, refl, ◌⊎◌, inl, inr, Bool, true, false, not, ◌==◌,
  arith, if◌then◌else◌, ne_of_test, Bool-cases,
}
use native.Mathlib.Nat.{div-add-mod, mod-lt, mul-le-mul_left, mul-le-mul_right}
use ts_store.Prelude.Int.{pos}
use ts_store.Prelude.Equality.{Bytes}
use ts_store.Strings.{is_empty}
use ts_store.Word.{le_value}
use ts_store.File.{allocate}
use ts_store.Block.{validate_block_size}
use ts_store.Block.BlockHeader
use ts_store.Block.IndexEntry
use ts_store.Store.State.Errors.{
  Result, Err, ok, err, name_required, path_required, store_exists, invalid_num_blocks,
  invalid_block_size,
}
use ts_store.Store.State.{Config, Store, read_block_header, read_index_entry}
use ts_store.Store.Valid.{IsValid, read_at_total, Result-cases, block_inside}
use ts_store.Store.Freelist.{is_first_insert}
use ts_store.Store.Index.{get_newest_timestamp_locked, timestamp_of_block}
use ts_store.Store.Contents.First.{IsEmpty}
use ts_store.Store.Lifecycle.{validate, create, data_file_size, index_file_size, created}

-- The sizes are `uint32` values that `Validate` accepts.
pub record IsAccepted (c : Config) : Type 0 where
  pub some_blocks : 0 < c.num_blocks
  pub data_least : 64 ≤ c.data_block_size
  pub index_least : 64 ≤ c.index_block_size

block_size_least : (size : ℕ) → validate_block_size size ≡ true → 64 ≤ size
unfolding validate_block_size
block_size_least size h = ground arith

abbrev the_ok : Result (Unit {0})
the_ok = ok tt

checks :
    (no_name no_path zero_blocks data_size index_size : Bool)
    → (if no_name
        then err name_required
        else if no_path
        then err path_required
        else if zero_blocks
        then err invalid_num_blocks
        else if not data_size
        then err invalid_block_size
        else if not index_size
        then err invalid_block_size
        else ok tt)
      ≡ the_ok
    → (zero_blocks ≡ false) × (data_size ≡ true) × (index_size ≡ true)
checks true no_path zero_blocks data_size index_size h = absurd (ground (arith, h))
checks false true zero_blocks data_size index_size h = absurd (ground (arith, h))
checks false false true data_size index_size h = absurd (ground (arith, h))
checks false false false false index_size h = absurd (ground (arith, h))
checks false false false true false h = absurd (ground (arith, h))
checks false false false true true h = (refl, refl, refl)

validate-IsAccepted : (name path : Bytes) (c : Config) → validate name path c ≡ ok tt → IsAccepted c
unfolding validate
validate-IsAccepted name path c h =
    let (some_blocks, data_size, index_size) =
      checks (is_empty name) (is_empty path) (c.num_blocks == 0)
        (validate_block_size c.data_block_size) (validate_block_size c.index_block_size) h in
    record {
      some_blocks = omega (arith, ne_of_test _ _ some_blocks);
      data_least = block_size_least c.data_block_size data_size;
      index_least = block_size_least c.index_block_size index_size;
    }

entries_room : (n e : ℕ) → 0 < e → n ≤ (n + e - 1) / e * e
entries_room n e h = omega (arith, div-add-mod (n + e - 1) e, mod-lt (n + e - 1) {m = e} h)

index_room : (n size : ℕ) → 64 ≤ size → n * 16 ≤ (n + size / 16 - 1) / (size / 16) * size
index_room n size h =
    let e = size / 16 in
    let q = (n + e - 1) / e in
    let entries : n * 16 ≤ q * e * 16 = mul-le-mul_right 16 (entries_room n e (omega arith)) in
    let sizes : q * (e * 16) ≤ q * size = mul-le-mul_left q (omega arith) in
    grind (arith, entries, sizes)

pub created-IsValid :
    (c : Config)
    → c.num_blocks < 2 ^ 32
    → c.data_block_size < 2 ^ 32
    → IsAccepted c
    → IsValid (created c)
unfolding allocate data_file_size index_file_size
created-IsValid c blocks size a = record {
  config_agrees = refl;
  some_blocks = a.some_blocks;
  blocks_fit = blocks;
  size_least = a.data_least;
  size_fits = size;
  head_in = a.some_blocks;
  tail_in = a.some_blocks;
  data_allocated = omega arith;
  index_allocated = index_room c.num_blocks c.index_block_size a.index_least;
  offset_in = omega arith;
  offset_out = inl refl;
}

created-entry :
    (c : Config)
    → IsValid (created c)
    → read_index_entry 0 (created c)
      ≡ ok (record { timestamp = pos 0; block_num = 0; reserved = 0 })
unfolding read_index_entry allocate IndexEntry.decode le_value
created-entry c v =
    rw
      (
        read_at_total (created c).index_file 0 16 (omega (arith, v.index_allocated, v.some_blocks)),
        read_index_entry,
      )
      refl

created-header :
    (c : Config)
    → IsValid (created c)
    → read_block_header 0 (created c)
      ≡ ok (record { timestamp = pos 0; data_len = 0; flags = 0; reserved = 0 })
unfolding read_block_header allocate BlockHeader.decode le_value
created-header c v =
    rw
      (
        read_at_total (created c).data_file (0 * c.data_block_size) 24 (
            omega (
              arith,
              v.data_allocated,
              v.size_least,
              block_inside 0 c.num_blocks c.data_block_size v.some_blocks,
            )),
        read_block_header,
      )
      refl

pub created-IsEmpty : (c : Config) → IsValid (created c) → IsEmpty (created c)
unfolding is_first_insert get_newest_timestamp_locked timestamp_of_block
created-IsEmpty c v = record {
  valid = v;
  is_open = refl;
  head = refl;
  unwritten = refl;
  first = rw (created-entry c v, is_first_insert, created-header c v) refl;
  no_newest = rw (created-entry c v, get_newest_timestamp_locked, timestamp_of_block) refl;
}

-- For a number of blocks and a block size that are `uint32` values, and where the files and the directory can be
-- made, `Create` fails with the error of `Validate`; where there is none, it fails with `ErrStoreExists` if the
-- directory of the store is there, and otherwise makes an empty valid store, whose files hold every block and
-- every index entry.
pub create-IsEmpty :
    (exists : Bool) (name path : Bytes) (c : Config)
    → c.num_blocks < 2 ^ 32
    → c.data_block_size < 2 ^ 32
    → ((e : Err) × (validate name path c ≡ err e) × (create exists name path c ≡ err e))
      ⊎ (((validate name path c ≡ ok tt)
            × (exists ≡ true)
            × (create exists name path c ≡ err store_exists))
          ⊎ ((validate name path c ≡ ok tt)
              × (exists ≡ false)
              × (s : Store) × (create exists name path c ≡ ok s)
              × IsEmpty s))
unfolding create
create-IsEmpty exists name path c blocks size = elim (Result-cases (validate name path c)) [
  | inr (e, bad) ↦ inl (e, bad, rw bad refl)
  | inl (_, good) ↦ inr (elim (Bool-cases exists) [
    | inl there ↦ inl (good, there, rw (good, there) refl)
    | inr absent ↦ inr (
      good,
      absent,
      created c,
      rw (good, absent) refl,
      created-IsEmpty c (created-IsValid c blocks size (validate-IsAccepted name path c good)),
    )
  ])
]
