-- ===== src/Store/Contents/Put.antt =====
-- `PutObject` and `GetObject` of pkg/store/object.go keep the abstract view of a store: the branches that
-- append and that start a block, for an object that fits in one block.
use ts_store.Prelude.{
  ℕ, ◌+◌, ◌-◌, ◌%◌, ◌^◌, ◌≤◌, ◌<◌, ◌≡◌, refl, sym, ap, ◌∙◌, inl, inr, true, false, List, [], ◌∷◌,
  ◌++◌, length, arith, ◌==◌, leb, le→leb, if◌then◌else◌, Bool-cases,
}
use mathlib.Core.Path.{subst}
use ts_store.Prelude.Int.{ℤ, pos, ◌<ℤ◌, ◌≤ℤ◌, leb_ℤ}
use ts_store.Word.{add32, sub32}
use ts_store.File.{write_at}
use ts_store.Store.State.Errors.{ok, err, timestamp_out_of_order}
use ts_store.Store.State.Metadata
use ts_store.Store.State.{Store, block_offset, write_meta_locked}
use ts_store.Store.Packed.{
  ObjectHandle, len32, append_to_current_block, write_to_new_block, can_fit_in_current_block,
  usable_per_block,
}
use ts_store.Store.Packed.Contents.{Object, IsStorable, end_of, Chain-le, positive_test}
use ts_store.Store.Packed.Append.{appended_handle}
use ts_store.Store.Packed.NewBlock.{new_handle}
use ts_store.Store.Packed.Scan.{object_handle}
use ts_store.Store.Index.{get_newest_timestamp_locked, timestamp_of_block}
use ts_store.Store.Objects.{put_object, get_object, place_object, is_out_of_order}
use ts_store.Store.Contents.{Packs, Stores, Placed-entry}
use ts_store.Store.Contents.Spec.{used, put, retire}
use ts_store.Store.Contents.Append
use ts_store.Store.Contents.NewBlock
use ts_store.Store.Contents.Chains.{Chain-end, get_object-Chain}

-- Storing `new` succeeds, the store then holds q, and the handle reads the bytes.
pub record StoredAs (s : Store) (new : Object) (q : Packs) : Type 0 where
  pub handle : ObjectHandle
  pub after : Store
  pub runs : put_object new.timestamp new.bytes s ≡ (ok handle, after)
  pub stores : Stores after q
  pub reads : get_object handle after ≡ ok new.bytes
  pub timestamp : handle.timestamp ≡ new.timestamp
  pub blocks : after.meta.num_blocks ≡ s.meta.num_blocks
  pub size : after.config.data_block_size ≡ s.config.data_block_size

abbrev pub Stored : Store → Packs → Object → Type 0
Stored s p new = StoredAs s new (put s.meta.num_blocks s.config.data_block_size new p)

not_below : (a b : ℤ) → a <ℤ b → leb_ℤ b a ≡ false
not_below a b h = ground arith

not_above : (a b : ℤ) → a ≤ℤ b → leb_ℤ a b ≡ true
not_above a b h = ground arith

-- With its checks passed, `PutObject` places the object and writes the metadata.
pub put_runs :
    (s : Store) (new : Object) (handle : ObjectHandle) (s' : Store)
    → s.closed ≡ false
    → pos 0 <ℤ new.timestamp
    → is_out_of_order new.timestamp s ≡ false
    → place_object new.timestamp new.bytes s ≡ (ok handle, s')
    → put_object new.timestamp new.bytes s
      ≡ (ok handle, record s' { meta_file = write_at s'.meta_file 0 (Metadata.encode s'.meta) })
unfolding put_object write_meta_locked
put_runs s new handle s' is_open positive in_order placed =
    ground (arith, is_open, not_below (pos 0) new.timestamp positive, in_order, placed)

room_test :
    (w size n : ℕ)
    → 24 ≤ w
    → w ≤ size
    → size < 2 ^ 32
    → 24 + 24 + n ≤ size
    → (if w == 0 then false else leb (add32 24 (n % 2 ^ 32)) (sub32 size w)) ≡ leb (w + 24 + n) size
room_test w size n least fits small room =
    let used_size : add32 24 (n % 2 ^ 32) ≡ 24 + n = omega arith in
    let left : sub32 size w ≡ size - w = omega arith in
    let some_used : (w == 0) ≡ false = ground arith in
    rw (used_size, left, some_used) (ground arith)

pub handle_new :
    (new : Object)
    → IsStorable new
    → (b : ℕ) → object_handle b 24 new ≡ new_handle b new.timestamp new.bytes
handle_new new t b =
    let short : length new.bytes % 2 ^ 32 ≡ length new.bytes = omega (arith, t.short) in
    λ i. record {
      timestamp = new.timestamp;
      block_num = b;
      offset = 24;
      size = sym short i;
      span_count = 1;
    }

leb→le : (a b : ℕ) → leb a b ≡ true → a ≤ b
leb→le a b h = ground arith

pub put_fits :
    (n size : ℕ) (new : Object) (p : Packs)
    → leb (end_of (used p.current) new) size ≡ true
    → put n size new p
      ≡ record p { current = record (p.current) { rest = p.current.rest ++ (new ∷ []) } }
unfolding put
put_fits n size new p h = rw h refl

pub put_full :
    (n size : ℕ) (new : Object) (p : Packs)
    → leb (end_of (used p.current) new) size ≡ false
    → put n size new p ≡ record {
      older = retire n (p.older ++ (p.current ∷ []));
      current = record { first = new; rest = [] };
    }
unfolding put
put_full n size new p h = rw h refl

refused_runs :
    (s : Store) (timestamp : ℤ) (bs : List ℕ) (newest_ts : ℤ)
    → s.closed ≡ false
    → leb_ℤ timestamp (pos 0) ≡ false
    → get_newest_timestamp_locked s ≡ ok newest_ts
    → leb_ℤ timestamp newest_ts ≡ true
    → put_object timestamp bs s ≡ (err timestamp_out_of_order, s)
unfolding put_object is_out_of_order
refused_runs s timestamp bs newest_ts is_open positive read late =
    ground (arith, is_open, positive, read, late)

module _ (s : Store) (p : Packs) (st : Stores s p) where
  newest : get_newest_timestamp_locked s ≡ ok p.current.first.timestamp
  unfolding get_newest_timestamp_locked timestamp_of_block
  newest =
      rw
        (
          Placed-entry s s.meta.head_block p.current s.meta.write_offset
              (omega (arith, st.valid.head_in, st.valid.blocks_fit)) st.current,
          positive_test p.current.first.timestamp st.current.holds.chain.2.positive,
        )
        refl

module _ (s : Store) (p : Packs) (st : Stores s p) (new : Object) (t : IsStorable new) where
  in_order : p.current.first.timestamp <ℤ new.timestamp → is_out_of_order new.timestamp s ≡ false
  unfolding is_out_of_order
  in_order h =
      rw (newest s p st, is_out_of_order, not_below p.current.first.timestamp new.timestamp h) refl

  end : s.meta.write_offset ≡ used p.current
  end =
      Chain-end (block_offset s.config s.meta.head_block) s.data_file true 24
        (p.current.first ∷ p.current.rest) s.meta.write_offset st.current.holds.chain

  least : 24 ≤ s.meta.write_offset
  least =
      Chain-le (block_offset s.config s.meta.head_block) s.data_file true 24
        (p.current.first ∷ p.current.rest) s.meta.write_offset st.current.holds.chain

  fits_iff :
      end_of 24 new ≤ s.config.data_block_size
      → can_fit_in_current_block (add32 24 (len32 new.bytes)) s
        ≡ leb (end_of s.meta.write_offset new) s.config.data_block_size
  unfolding can_fit_in_current_block
  fits_iff le =
      room_test s.meta.write_offset s.config.data_block_size (length new.bytes) least
        st.valid.offset_in st.valid.size_fits le

  place_append :
      end_of 24 new ≤ s.config.data_block_size
      → leb (end_of s.meta.write_offset new) s.config.data_block_size ≡ true
      → place_object new.timestamp new.bytes s ≡ append_to_current_block new.timestamp new.bytes s
  unfolding place_object
  place_append le fits = rw (fits_iff le ∙ fits) refl

  place_new :
      end_of 24 new ≤ s.config.data_block_size
      → leb (end_of s.meta.write_offset new) s.config.data_block_size ≡ false
      → place_object new.timestamp new.bytes s ≡ write_to_new_block new.timestamp new.bytes s
  unfolding place_object
  place_new le full =
      let usable : leb (add32 24 (len32 new.bytes)) (usable_per_block s.config) ≡ true =
        le→leb _ _ (omega (arith, st.valid.size_fits)) in
      rw (fits_iff le ∙ full, usable) refl

  short : length new.bytes % 2 ^ 32 ≡ length new.bytes
  short = omega (arith, t.short)

  handle_at :
      object_handle s.meta.head_block (used p.current) new
      ≡ appended_handle s new.timestamp new.bytes
  handle_at = λ i. record {
    timestamp = new.timestamp;
    block_num = s.meta.head_block;
    offset = sym end i;
    size = sym short i;
    span_count = 1;
  }

  put_append :
      end_of 24 new ≤ s.config.data_block_size
      → p.current.first.timestamp <ℤ new.timestamp
      → end_of s.meta.write_offset new ≤ s.config.data_block_size
      → leb (end_of s.meta.write_offset new) s.config.data_block_size ≡ true
      → Stored s p new
  put_append le later room fits =
      let a = Append.done s p st new t room in
      let mf = write_at s.meta_file 0 (Metadata.encode (Append.meta_after s p st new t room)) in
      let stores = Append.append-Stores s p st new t room mf in
      record {
        handle = appended_handle s new.timestamp new.bytes;
        after = Append.after s p st new t room mf;
        runs =
            put_runs s new _ _ st.is_open t.positive (in_order later)
              (place_append le fits ∙ a.runs);
        stores =
            subst (Stores (Append.after s p st new t room mf))
              (sym (
                put_fits s.meta.num_blocks s.config.data_block_size new p
                  (ap (λ w. leb (end_of w new) s.config.data_block_size) (sym end) ∙ fits)))
              stores;
        reads =
            ap (λ h. get_object h (Append.after s p st new t room mf)) (sym handle_at)
            ∙ get_object-Chain (Append.after s p st new t room mf) s.meta.head_block
                (p.current.first ∷ p.current.rest) new [] (end_of s.meta.write_offset new)
                st.is_open room st.valid.size_fits stores.current.holds.chain;
        timestamp = refl;
        blocks = refl;
        size = refl;
      }

  put_new :
      (room : end_of 24 new ≤ s.config.data_block_size)
      → p.current.first.timestamp <ℤ new.timestamp
      → leb (end_of s.meta.write_offset new) s.config.data_block_size ≡ false
      → Stored s p new
  put_new room later full =
      let a = NewBlock.started s p st new t room in
      let mf = write_at s.meta_file 0 (Metadata.encode (NewBlock.meta_after s p st new t room)) in
      let stores = NewBlock.new_block-Stores s p st new t room mf in
      record {
        handle = new_handle (NewBlock.new_block s p st new t room) new.timestamp new.bytes;
        after = NewBlock.after s p st new t room mf;
        runs =
            put_runs s new _ _ st.is_open t.positive (in_order later)
              (place_new room full ∙ a.runs);
        stores =
            subst (Stores (NewBlock.after s p st new t room mf))
              (sym (
                put_full s.meta.num_blocks s.config.data_block_size new p
                  (ap (λ w. leb (end_of w new) s.config.data_block_size) (sym end) ∙ full)))
              stores;
        reads =
            ap (λ h. get_object h (NewBlock.after s p st new t room mf))
              (sym (handle_new new t (NewBlock.new_block s p st new t room)))
            ∙ get_object-Chain (NewBlock.after s p st new t room mf)
                (NewBlock.new_block s p st new t room) [] new [] (end_of 24 new) st.is_open room
                st.valid.size_fits stores.current.holds.chain;
        timestamp = refl;
        blocks = refl;
        size = refl;
      }

-- In a store with a known content, an object with a positive timestamp newer than the first of
-- the current block that fits in one block is stored: the run succeeds, the store then holds what
-- `put` of the specification says, and the handle reads the bytes.
pub put_object-Stored :
    (s : Store) (p : Packs) (new : Object)
    → Stores s p
    → IsStorable new
    → end_of 24 new ≤ s.config.data_block_size
    → p.current.first.timestamp <ℤ new.timestamp
    → Stored s p new
put_object-Stored s p new st t room later =
    elim (Bool-cases (leb (end_of s.meta.write_offset new) s.config.data_block_size)) [
      | inl fits ↦ put_append s p st new t room later (leb→le _ _ fits) fits
      | inr full ↦ put_new s p st new t room later full
    ]

-- In a store with a known content, a positive timestamp that is not newer than the first of the
-- current block is refused, and nothing is written.
pub put_object-out_of_order :
    (s : Store) (p : Packs) (timestamp : ℤ) (bs : List ℕ)
    → Stores s p
    → pos 0 <ℤ timestamp
    → timestamp ≤ℤ p.current.first.timestamp
    → put_object timestamp bs s ≡ (err timestamp_out_of_order, s)
put_object-out_of_order s p timestamp bs st positive older =
    refused_runs s timestamp bs p.current.first.timestamp st.is_open
      (not_below (pos 0) timestamp positive) (newest s p st)
      (not_above timestamp p.current.first.timestamp older)
