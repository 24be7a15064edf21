-- ===== src/Ws/Pusher/Fresh.antt =====
-- What `sendNewData` (internal/ws/pusher.go) reads from a store: objects newer than its cursor, in their order.
use ts_store.Prelude.{
  ℕ, zero, suc, ◌+◌, ◌^◌, ◌≤◌, ◌≡◌, ◌≢◌, refl, sym, ap, ◌∙◌, ◌⊎◌, inl, inr, true, false, ◌&&◌, List,
  [], ◌∷◌, take, drop, arith, Bool-cases,
}
use mathlib.Core.Path.{subst}
use ts_store.Prelude.Int.{ℤ, pos, negsuc, pos_part, ◌≤ℤ◌, ◌<ℤ◌, leb_ℤ, ltb_ℤ, ◌==ℤ◌}
use ts_store.Aggregation.Window.{add_int64}
use ts_store.Rules.{Comparisons}
use ts_store.Store.State.Errors.{Result, ok, err, invalid_timestamp}
use ts_store.Store.State.{Store}
use ts_store.Store.Packed.{ObjectHandle}
use ts_store.Store.Objects.Query.{get_oldest_objects, get_objects_in_range}
use ts_store.Store.Contents.{Packs, Stores}
use ts_store.Store.Contents.Listing.{handles, handles_from, limited, get_oldest_objects-Stores}
use ts_store.Store.Contents.Walk.{Ascending, in_range}
use ts_store.Store.Contents.Between.{Ascending-drop}
use ts_store.Store.Contents.InRange.{
  packs_of, get_objects_in_range-Stores, get_objects_in_range_backwards,
}
use ts_store.SchemaStore.{SchemaStore}
use ts_store.Ws.Pusher.{MapCodec, Socket, new_handles}
use ts_store.Ws.Pusher.Order.{FreshFrom, bound}

-- A store as the connection may find it: its contents are known, at most 2^31 blocks, with growing
-- timestamps up to the bound.
pub record Readable (s : Store) : Type 0 where
  pub contents : Packs
  pub stores : Stores s contents
  pub small : s.meta.num_blocks ≤ 2 ^ 31
  pub fresh : FreshFrom (pos 0) (handles s contents)

FreshFrom-Ascending : (t : ℤ) (hs : List ObjectHandle) → FreshFrom t hs → Ascending t hs
FreshFrom-Ascending t [] f = tt
FreshFrom-Ascending t (h ∷ hs) f = (f.0, FreshFrom-Ascending h.timestamp hs f.2)

FreshFrom-take : (n : ℕ) (t : ℤ) (hs : List ObjectHandle) → FreshFrom t hs → FreshFrom t (take n hs)
FreshFrom-take zero t hs f = tt
FreshFrom-take (suc n) t [] f = tt
FreshFrom-take (suc n) t (h ∷ hs) f = (f.0, f.1, FreshFrom-take n h.timestamp hs f.2)

FreshFrom-limited :
    (limit t : ℤ) (hs : List ObjectHandle) → FreshFrom t hs → FreshFrom t (limited limit hs)
FreshFrom-limited (pos zero) t hs f = f
FreshFrom-limited (pos (suc n)) t hs f = FreshFrom-take (suc n) t hs f
FreshFrom-limited (negsuc n) t hs f = f

and_true : (start end t : ℤ) → (leb_ℤ start t && leb_ℤ t end) ≡ true → (start ≤ℤ t) × (t ≤ℤ end)
and_true start end t h = ground (arith, h)

FreshFrom-in_range :
    (start end u v : ℤ) (hs : List ObjectHandle)
    → end ≤ℤ bound
    → (v ≤ℤ u) ⊎ (v <ℤ start)
    → Ascending u hs
    → FreshFrom v (in_range start end hs)
FreshFrom-in_range start end u v [] le low a = tt
FreshFrom-in_range start end u v (h ∷ hs) le low a =
    elim (Bool-cases (leb_ℤ start h.timestamp && leb_ℤ h.timestamp end)) [
      | inl within ↦
          let (from, to) = and_true start end h.timestamp within in
          rw within (
            omega (arith, low, a.0, from),
            omega (arith, to, le),
            FreshFrom-in_range start end h.timestamp h.timestamp hs le (inl (omega arith)) a.1,
          )
      | inr without ↦ rw without (FreshFrom-in_range start end h.timestamp v hs le (later low) a.1)
    ]
  where
    later : (v ≤ℤ u) ⊎ (v <ℤ start) → (v ≤ℤ h.timestamp) ⊎ (v <ℤ start)
    later (inl x) = inl (omega (arith, x, a.0))
    later (inr y) = inr y

next_int64 : (n : ℕ) → pos n ≤ℤ bound → add_int64 (pos n) (pos 1) ≡ pos (n + 1)
next_int64 n h = ground (arith, h)

refused_fails :
    (x : Result (List ObjectHandle)) (hs : List ObjectHandle)
    → x ≡ err invalid_timestamp
    → x ≢ ok hs
refused_fails x hs e = λ h. cc

goes_back : (now : ℤ) (n : ℕ) → ltb_ℤ now (pos n) ≡ true → now <ℤ pos n
goes_back now n h = ground (arith, h)

goes_on : (now : ℤ) (n : ℕ) → ltb_ℤ now (pos n) ≡ false → pos n ≤ℤ now
goes_on now n h = ground (arith, h)

ok_injective : {A : Type 0} (a b : A) → ok a ≡ ok b → a ≡ b
ok_injective a b e = cc

module _ (s : Store) (r : Readable s) (now : ℤ) (some_now : now ≢ pos 0)
    (now_le : now ≤ℤ bound) where
  oldest-FreshFrom :
      (limit : ℤ) (hs : List ObjectHandle)
      → get_oldest_objects limit s ≡ ok hs
      → FreshFrom (pos 0) hs
  oldest-FreshFrom limit hs e =
      subst (FreshFrom (pos 0))
        (ok_injective (limited limit (handles s r.contents)) hs
          (sym (get_oldest_objects-Stores s r.contents limit r.stores r.small) ∙ e))
        (FreshFrom-limited limit (pos 0) (handles s r.contents) r.fresh)

  range-FreshFrom :
      (n : ℕ) (limit : ℤ) (hs : List ObjectHandle)
      → get_objects_in_range now (pos (n + 1)) now limit s ≡ ok hs
      → FreshFrom (pos n) hs
  range-FreshFrom n limit hs e =
      let some_start : pos (n + 1) ≢ pos 0 = λ q. absurd (omega (arith, ap pos_part q)) in
      let asc = FreshFrom-Ascending (pos 0) (handles s r.contents) r.fresh in
      elim (Bool-cases (ltb_ℤ now (pos (n + 1)))) [
        | inl back ↦
            let refused =
              get_objects_in_range_backwards s r.contents r.stores r.small asc now (pos (n + 1)) now
                limit (goes_back now (n + 1) back) some_start some_now in
            absurd (refused_fails _ hs refused e)
        | inr order ↦
            let found =
              get_objects_in_range-Stores s r.contents r.stores r.small asc now (pos (n + 1)) now
                limit (goes_on now (n + 1) order) some_start some_now in
            let rest = handles_from s found.block (drop found.block (packs_of r.contents)) in
            subst (FreshFrom (pos n))
              (ok_injective (limited limit (in_range (pos (n + 1)) now rest)) hs
                (sym found.answers ∙ e))
              (FreshFrom-limited limit (pos n) (in_range (pos (n + 1)) now rest) (
                FreshFrom-in_range (pos (n + 1)) now (pos 0) (pos n) rest now_le (inr (omega arith))
                  (subst
                    (λ x.
                      Ascending (pos 0) (handles_from s x (drop found.block (packs_of r.contents))))
                    (omega arith)
                    (Ascending-drop s (pos 0) 0 found.block (packs_of r.contents) asc))))
      ]

not_zero : (n : ℕ) → (pos (suc n) ==ℤ pos 0) ≡ false
not_zero n = ground arith

new_handles_range :
    (K : Comparisons) (W : Socket K) (C : MapCodec K) (now : ℤ) (st : SchemaStore) (n : ℕ)
    → new_handles K W C now st (pos (suc n))
      ≡ get_objects_in_range now (add_int64 (pos (suc n)) (pos 1)) now (pos 100) st.store
unfolding new_handles
new_handles_range K W C now st n = rw (not_zero n) refl

-- The handles that `sendNewData` reads are newer than its cursor, each newer than the one before.
pub new_handles-FreshFrom :
    (K : Comparisons) (W : Socket K) (C : MapCodec K) (now : ℤ) (st : SchemaStore) (t : ℤ)
    (hs : List ObjectHandle)
    → Readable st.store
    → now ≢ pos 0
    → now ≤ℤ bound
    → pos 0 ≤ℤ t
    → t ≤ℤ bound
    → new_handles K W C now st t ≡ ok hs
    → FreshFrom t hs
unfolding new_handles
new_handles-FreshFrom K W C now st (pos zero) hs r some_now now_le low le e =
    oldest-FreshFrom st.store r now some_now now_le (pos 100) hs e
new_handles-FreshFrom K W C now st (pos (suc n)) hs r some_now now_le low le e =
    range-FreshFrom st.store r now some_now now_le (suc n) (pos 100) hs (
      ap (λ x. get_objects_in_range now x now (pos 100) st.store) (sym (next_int64 (suc n) le))
      ∙ sym (new_handles_range K W C now st n)
      ∙ e)
new_handles-FreshFrom K W C now st (negsuc n) hs r some_now now_le low le e = absurd (omega arith)
