-- ===== src/Store/Packed/Link.antt =====
-- `updatePreviousObjectLink` of pkg/store/packed.go walks a closed chain to its last object and
-- opens the chain there.
use ts_store.Prelude.{
  ℕ, zero, suc, ◌+◌, ◌^◌, ◌≤◌, ◌<◌, ◌≡◌, refl, ◌∙◌, Bool, true, false, List, [], ◌∷◌, arith, ltb,
  lt→ltb, ◌==◌,
}
use ts_store.File.{File, write_at}
use ts_store.Block.ObjectHeader
use ts_store.Block.ObjectHeader.{ObjectHeader}
use ts_store.Store.State.Errors.{ok}
use ts_store.Store.State.{Store, block_offset, read_object_header, write_object_header}
use ts_store.Store.State.Access.{
  At, Frame, At-write_at, Frame-weaken, Frame-object_header, read_object_header-At,
}
use ts_store.Store.Valid.{size-write_at}
use ts_store.Store.Packed.{clear_last, link_from}
use ts_store.Store.Packed.Contents.{Object, IsStorable, end_of, header_of, Chain, Chain-le}

-- The state with another data file.
abbrev pub with_data : Store → File → Store
with_data s f = record s { data_file = f }

pub header_of-IsTyped :
    (last : Bool) (off : ℕ) (o : Object)
    → IsStorable o
    → end_of off o < 2 ^ 32
    → ObjectHeader.IsTyped (header_of last off o)
header_of-IsTyped true off o t h = record {
  timestamp = t.typed;
  data_len = t.short;
  flags = omega arith;
  next_offset = omega arith;
  reserved = omega arith;
}
header_of-IsTyped false off o t h = record {
  timestamp = t.typed;
  data_len = t.short;
  flags = omega arith;
  next_offset = h;
  reserved = omega arith;
}

-- What the walk has done from `off` on.
pub record Opened (s : Store) (b off : ℕ) (os : List Object) (end fuel : ℕ) : Type 0 where
  pub file : File
  pub runs : link_from fuel b end off s ≡ (ok tt, with_data s file)
  pub opened : Chain (block_offset s.config b) file false off os end
  pub grows : s.data_file.size ≤ file.size
  pub frame : Frame s.data_file file (block_offset s.config b + off) (block_offset s.config b + end)

-- One round of the walk, at the last object and at any other.
link_from_at_last :
    (fuel b new off : ℕ) (s : Store) (h : ObjectHeader)
    → ltb off s.meta.write_offset ≡ true
    → read_object_header b off s ≡ ok h
    → ObjectHeader.is_last_in_block h ≡ true
    → link_from (suc fuel) b new off s
      ≡ write_object_header b off (record h { flags = clear_last h.flags; next_offset = new }) s
unfolding link_from
link_from_at_last fuel b new off s h lt r l = rw (lt, link_from, r, l)

link_from_at_other :
    (fuel b new off : ℕ) (s : Store) (h : ObjectHeader)
    → ltb off s.meta.write_offset ≡ true
    → read_object_header b off s ≡ ok h
    → ObjectHeader.is_last_in_block h ≡ false
    → (h.next_offset == 0) ≡ false
    → link_from (suc fuel) b new off s ≡ link_from fuel b new h.next_offset s
unfolding link_from
link_from_at_other fuel b new off s h lt r l n = rw (lt, link_from, r, l, n)

module _ (s : Store) (b end : ℕ) (at_end : s.meta.write_offset ≡ end) (small : end < 2 ^ 32) where
  abbrev base : ℕ
  base = block_offset s.config b

  read_header :
      (last : Bool) (off : ℕ) (o : Object)
      → IsStorable o
      → end_of off o ≤ end
      → At s.data_file (base + off) (ObjectHeader.encode (header_of last off o))
      → read_object_header b off s ≡ ok (header_of last off o)
  read_header last off o t le h =
      read_object_header-At s b off (header_of last off o)
        (header_of-IsTyped last off o t (omega arith)) h

  link_last :
      (fuel off : ℕ) (o : Object)
      → Chain base s.data_file true off (o ∷ []) end
      → Opened s b off (o ∷ []) end (suc fuel)
  unfolding write_object_header
  link_last fuel off o c = record {
    file = write_at s.data_file (base + off) (ObjectHeader.encode (header_of false off o));
    runs =
        link_from_at_last fuel b end off s (header_of true off o)
          (lt→ltb off s.meta.write_offset (omega (arith, c.3, at_end)))
          (read_header true off o c.2 (omega (arith, c.3)) c.0) refl
        ∙ relink;
    opened = (
      At-write_at s.data_file (base + off) (ObjectHeader.encode (header_of false off o)),
      Frame-object_header s.data_file (base + off) (header_of false off o) (base + (off + 24))
          o.bytes (omega arith) c.1,
      c.2,
      c.3,
    );
    grows = size-write_at s.data_file _ _;
    frame =
        Frame-weaken s.data_file _ (base + off) (base + off + 24) (base + off) (base + end)
          (omega arith) (omega (arith, c.3))
          (Frame-object_header s.data_file (base + off) (header_of false off o));
  }
    where
      relink :
          write_object_header b off
            (record (header_of true off o) { flags = clear_last 4; next_offset = end })
            s
          ≡ (
            ok tt,
            with_data s
                (write_at s.data_file (base + off) (ObjectHeader.encode (header_of false off o))),
          )
      relink = rw (← c.3) refl

  pub link_chain :
      (fuel off : ℕ) (o : Object) (os : List Object)
      → end < off + fuel
      → Chain base s.data_file true off (o ∷ os) end
      → Opened s b off (o ∷ os) end fuel
  link_chain zero off o os lt c =
      absurd (omega (arith, Chain-le base s.data_file true off (o ∷ os) end c))
  link_chain (suc fuel) off o [] lt c = link_last fuel off o c
  link_chain (suc fuel) off o (o' ∷ os) lt c =
      let le = Chain-le base s.data_file true (end_of off o) (o' ∷ os) end c.3 in
      let rest = link_chain fuel (end_of off o) o' os (omega arith) c.3 in
      record {
        file = rest.file;
        runs =
            link_from_at_other fuel b end off s (header_of false off o)
              (lt→ltb off s.meta.write_offset (omega (arith, le, at_end)))
              (read_header false off o c.2 le c.0) refl (ground arith)
            ∙ rest.runs;
        opened = (
          rest.frame (base + off) (ObjectHeader.encode (header_of false off o))
              (omega (arith, ObjectHeader.length-encode (header_of false off o))) c.0,
          rest.frame (base + (off + 24)) o.bytes (omega arith) c.1,
          c.2,
          rest.opened,
        );
        grows = rest.grows;
        frame = Frame-weaken s.data_file rest.file _ _ _ _ (omega arith) (omega arith) rest.frame;
      }
