-- ===== src/Store/Packed/Append.antt =====
-- `appendToCurrentBlock` of pkg/store/packed.go adds one object at the end of the head block.
use ts_store.Prelude.{
  ◌≤◌, ℕ, suc, ◌+◌, ◌^◌, ◌<◌, ◌≡◌, refl, ap, ◌∙◌, true, false, List, [], ◌∷◌, ◌++◌, length, arith,
}
use mathlib.Core.Path.{subst}
use ts_store.Prelude.Int.{ℤ}
use ts_store.Word.{add32, sub32, IsInt64}
use ts_store.File.{File, write_at}
use ts_store.Block.BlockHeader
use ts_store.Block.BlockHeader.{BlockHeader}
use ts_store.Block.ObjectHeader
use ts_store.Block.ObjectHeader.{ObjectHeader}
use ts_store.Store.State.Errors.{ok}
use ts_store.Store.State.{
  Store, block_offset, read_block_header, write_block_header, write_object_header, write_data,
}
use ts_store.Store.State.Access.{
  At, Frame, At-write_at, Frame-trans, Frame-weaken, Frame-object_header, Frame-block_header,
  write_at-Frame, read_block_header-At,
}
use ts_store.Store.Valid.{size-write_at}
use ts_store.Store.Packed.{
  ObjectHandle, len32, new_object_header, update_previous_object_link, append_to_current_block,
}
use ts_store.Store.Packed.Contents.{
  Object, IsStorable, end_of, header_of, Chain, Chain-le, Chain-Frame, Chain-append,
}
use ts_store.Store.Packed.Link.{with_data, Opened, link_chain}

-- The header of a packed block that is not a continuation.
abbrev pub packed_header : ℤ → ℕ → BlockHeader
packed_header timestamp end = record {
  timestamp = timestamp;
  data_len = sub32 end 24;
  flags = 3;
  reserved = 0;
}

abbrev pub first_timestamp : List Object → ℤ → ℤ
first_timestamp [] t = t
first_timestamp (o ∷ os) t = o.timestamp

-- Block b holds these objects, and nothing behind `end`.
pub record Holds (s : Store) (b : ℕ) (o : Object) (os : List Object) (end : ℕ) : Type 0 where
  pub header :
      At s.data_file (block_offset s.config b) (BlockHeader.encode (packed_header o.timestamp end))
  pub chain : Chain (block_offset s.config b) s.data_file true 24 (o ∷ os) end

-- The handle and the state that an append leaves, from the file that the link update leaves.
abbrev pub appended_handle : Store → ℤ → List ℕ → ObjectHandle
appended_handle s timestamp bs = record {
  timestamp = timestamp;
  block_num = s.meta.head_block;
  offset = s.meta.write_offset;
  size = len32 bs;
  span_count = 1;
}

abbrev with_object : Store → File → ℤ → List ℕ → File
with_object s f timestamp bs =
    write_at
      (write_at f (block_offset s.config s.meta.head_block + s.meta.write_offset)
        (ObjectHeader.encode (new_object_header timestamp (len32 bs))))
      (block_offset s.config s.meta.head_block + add32 s.meta.write_offset 24) bs

abbrev with_header : Store → File → BlockHeader → File
with_header s f h = write_at f (block_offset s.config s.meta.head_block) (BlockHeader.encode h)

abbrev appended_state : Store → File → BlockHeader → ℤ → List ℕ → Store
appended_state s f h timestamp bs =
    let end = add32 (add32 s.meta.write_offset 24) (len32 bs) in
    record s {
      meta = record (s.meta) { write_offset = end };
      data_file =
          with_header s (with_object s f timestamp bs) (record h { data_len = sub32 end 24 });
    }

append_runs :
    (s : Store) (f : File) (h : BlockHeader) (timestamp : ℤ) (bs : List ℕ)
    → update_previous_object_link s.meta.head_block s.meta.write_offset s ≡ (ok tt, with_data s f)
    → read_block_header s.meta.head_block (with_data s (with_object s f timestamp bs)) ≡ ok h
    → append_to_current_block timestamp bs s
      ≡ (ok (appended_handle s timestamp bs), appended_state s f h timestamp bs)
unfolding append_to_current_block write_object_header write_data write_block_header
append_runs s f h timestamp bs linked read = ground (arith, linked, read)

pub packed_header-IsTyped :
    (timestamp : ℤ) (end : ℕ)
    → IsInt64 timestamp
    → BlockHeader.IsTyped (packed_header timestamp end)
packed_header-IsTyped timestamp end t = record {
  timestamp = t;
  data_len = omega arith;
  flags = omega arith;
  reserved = omega arith;
}

-- What an append of `new` to the head block has done.
pub record Appended (s : Store) (o : Object) (os : List Object) (new : Object) : Type 0 where
  pub file : File
  pub runs : append_to_current_block new.timestamp new.bytes s ≡ (
    ok (appended_handle s new.timestamp new.bytes),
    record s {
      meta = record (s.meta) { write_offset = end_of s.meta.write_offset new };
      data_file = file;
    },
  )
  pub holds :
      Holds
        (with_data s file)
        s.meta.head_block
        o
        (os ++ (new ∷ []))
        (end_of s.meta.write_offset new)
  pub grows : s.data_file.size ≤ file.size
  pub frame :
      Frame s.data_file file
        (block_offset s.config s.meta.head_block)
        (block_offset s.config s.meta.head_block + end_of s.meta.write_offset new)

module _ (s : Store) (o : Object) (os : List Object) (new : Object) (t : IsStorable new)
    (room : end_of s.meta.write_offset new < 2 ^ 32)
    (h : Holds s s.meta.head_block o os s.meta.write_offset) where
  abbrev base : ℕ
  base = block_offset s.config s.meta.head_block

  abbrev wo : ℕ
  wo = s.meta.write_offset

  linked : Opened s s.meta.head_block 24 (o ∷ os) wo (suc wo)
  linked =
      link_chain s s.meta.head_block wo refl (omega arith) (suc wo) 24 o os (omega arith) h.chain

  ends : 24 < wo
  ends = omega (arith, Chain-le base s.data_file true (end_of 24 o) os wo h.chain.3)

  abbrev file_with_header : File
  file_with_header =
      write_at linked.file (base + wo)
        (ObjectHeader.encode (new_object_header new.timestamp (len32 new.bytes)))

  abbrev file_with_object : File
  file_with_object = with_object s linked.file new.timestamp new.bytes

  -- The object is written behind the chain.
  Frame-object : Frame linked.file file_with_object (base + wo) (base + end_of wo new)
  Frame-object =
      Frame-trans linked.file file_with_header file_with_object (base + wo) (base + end_of wo new)
        (Frame-weaken linked.file file_with_header (base + wo) (base + wo + 24) (base + wo)
          (base + end_of wo new) (omega arith) (omega arith)
          (Frame-object_header linked.file (base + wo)
            (new_object_header new.timestamp (len32 new.bytes))))
        (Frame-weaken file_with_header file_with_object _ _ (base + wo) (base + end_of wo new)
          (omega arith) (omega arith)
          (write_at-Frame file_with_header (base + add32 wo 24) new.bytes))

  Frame-before : Frame s.data_file file_with_object (base + 24) (base + end_of wo new)
  Frame-before =
      Frame-trans s.data_file linked.file file_with_object (base + 24) (base + end_of wo new)
        (Frame-weaken s.data_file linked.file _ _ (base + 24) (base + end_of wo new) (omega arith)
          (omega arith) linked.frame)
        (Frame-weaken linked.file file_with_object _ _ (base + 24) (base + end_of wo new)
          (omega (arith, ends)) (omega arith) Frame-object)

  read_head :
      read_block_header s.meta.head_block (with_data s file_with_object)
      ≡ ok (packed_header o.timestamp wo)
  read_head =
      read_block_header-At (with_data s file_with_object) s.meta.head_block
        (packed_header o.timestamp wo) (packed_header-IsTyped o.timestamp wo h.chain.2.typed)
        (Frame-before base (BlockHeader.encode (packed_header o.timestamp wo))
          (omega (arith, BlockHeader.length-encode (packed_header o.timestamp wo))) h.header)

  abbrev final_file : File
  final_file = with_header s file_with_object (packed_header o.timestamp (end_of wo new))

  Frame-header : Frame file_with_object final_file base (base + 24)
  Frame-header =
      Frame-block_header file_with_object base (packed_header o.timestamp (end_of wo new))

  -- `uint32` arithmetic does not wrap inside a block.
  no_wrap : add32 (add32 wo 24) (len32 new.bytes) ≡ end_of wo new
  no_wrap = omega arith

  appended_file :
      (appended_state s linked.file (packed_header o.timestamp wo) new.timestamp new.bytes)
      ≡ record s { meta = record (s.meta) { write_offset = end_of wo new }; data_file = final_file }
  appended_file = λ i. record s {
    meta = record (s.meta) { write_offset = no_wrap i };
    data_file = with_header s file_with_object (packed_header o.timestamp (no_wrap i));
  }

  header-At :
      At file_with_object
        (base + wo)
        (ObjectHeader.encode (new_object_header new.timestamp (length new.bytes)))
  header-At =
      subst
        (λ n.
          At file_with_object (base + wo) (ObjectHeader.encode (new_object_header new.timestamp n)))
        len_eq
        (write_at-Frame file_with_header (base + add32 wo 24) new.bytes (base + wo)
          (ObjectHeader.encode (new_object_header new.timestamp (len32 new.bytes)))
          (omega (arith, size))
          (At-write_at linked.file (base + wo)
            (ObjectHeader.encode (new_object_header new.timestamp (len32 new.bytes)))))
    where
      len_eq : len32 new.bytes ≡ length new.bytes
      len_eq = omega arith

      size : length (ObjectHeader.encode (new_object_header new.timestamp (len32 new.bytes))) ≡ 24
      size = ObjectHeader.length-encode (new_object_header new.timestamp (len32 new.bytes))

  bytes-At : At file_with_object (base + (wo + 24)) new.bytes
  bytes-At =
      subst (λ n. At file_with_object (base + n) new.bytes) wo_eq
        (At-write_at file_with_header (base + add32 wo 24) new.bytes)
    where
      wo_eq : add32 wo 24 ≡ wo + 24
      wo_eq = omega arith

  new_chain : Chain base final_file true wo (new ∷ []) (end_of wo new)
  new_chain = (
    Frame-header (base + wo) (ObjectHeader.encode (header_of true wo new)) (omega (arith, ends))
        header-At,
    Frame-header (base + (wo + 24)) new.bytes (omega (arith, ends)) bytes-At,
    t,
    refl,
  )

  old_chain : Chain base final_file false 24 (o ∷ os) wo
  old_chain =
      Chain-Frame base file_with_object final_file base (base + 24) false 24 (o ∷ os) wo
        Frame-header (omega arith)
        (Chain-Frame base linked.file file_with_object (base + wo) (base + end_of wo new) false 24
          (o ∷ os) wo Frame-object (omega arith) linked.opened)

  pub append-Appended : Appended s o os new
  unfolding update_previous_object_link
  append-Appended = record {
    file = final_file;
    runs =
        append_runs s linked.file (packed_header o.timestamp wo) new.timestamp new.bytes linked.runs
          read_head
        ∙ ap (λ (u : Store). (ok (appended_handle s new.timestamp new.bytes), u)) appended_file;
    holds = record {
      header = At-write_at file_with_object base _;
      chain =
          Chain-append base final_file 24 (o ∷ os) wo new [] (end_of wo new) old_chain new_chain;
    };
    grows = omega (arith, linked.grows, size-write_at);
    frame =
        Frame-trans s.data_file file_with_object final_file base (base + end_of wo new)
          (Frame-weaken s.data_file file_with_object _ _ base (base + end_of wo new) (omega arith)
            (omega arith) Frame-before)
          (Frame-weaken file_with_object final_file base (base + 24) base (base + end_of wo new)
            (omega arith) (omega (arith, ends)) Frame-header);
  }
