-- ===== src/Store/Packed/Contents.antt =====
-- What a packed block holds, as a list of objects: the abstract view of the chain of object headers
-- that pkg/store/packed.go keeps in a block.
use ts_store.Prelude.{
  ℕ, ◌+◌, ◌^◌, ◌≤◌, ◌<◌, ◌≡◌, sym, ◌⊎◌, Bool, true, false, List, [], ◌∷◌, ◌++◌, length, arith,
  if◌then◌else◌,
}
use mathlib.Core.Path.{subst}
use ts_store.Prelude.Int.{negsuc, ◌==ℤ◌, ℤ, pos, ◌<ℤ◌}
use ts_store.Word.{IsInt64}
use ts_store.File.{File}
use ts_store.Block.ObjectHeader
use ts_store.Block.ObjectHeader.{ObjectHeader}
use ts_store.Store.State.Access.{At, Frame}

pub record Object : Type 0 where
  pub timestamp : ℤ
  pub bytes : List ℕ

-- Objects that the code can be given: a positive `int64` and fewer than 2^32 bytes.
pub record IsStorable (o : Object) : Type 0 where
  pub typed : IsInt64 o.timestamp
  pub positive : pos 0 <ℤ o.timestamp
  pub short : length o.bytes < 2 ^ 32

pub positive_test : (t : ℤ) → pos 0 <ℤ t → (t ==ℤ pos 0) ≡ false
positive_test (pos n) h = ground arith
positive_test (negsuc n) h = ground arith

-- The offset behind an object at `off`.
abbrev pub end_of : ℕ → Object → ℕ
end_of off o = off + 24 + length o.bytes

-- The header of an object at `off`: the last one of the block, or linked to the next.
abbrev pub header_of : Bool → ℕ → Object → ObjectHeader
header_of last off o = record {
  timestamp = o.timestamp;
  data_len = length o.bytes;
  flags = if last then 4 else 0;
  next_offset = if last then 0 else end_of off o;
  reserved = 0;
}

abbrev pub is_last : Bool → List Object → Bool
is_last closed [] = closed
is_last closed (o ∷ os) = false

module _ (base : ℕ) where
  -- From `off` to `end` of the block at `base` lie these objects, each linked to the next. The last
  -- one is marked so if the chain is closed, and linked to `end` if it is open.
  abbrev pub Chain : File → Bool → ℕ → List Object → ℕ → Type 0
  Chain f closed off [] end = off ≡ end
  Chain f closed off (o ∷ os) end =
      At f (base + off) (ObjectHeader.encode (header_of (is_last closed os) off o))
      × At f (base + (off + 24)) o.bytes
      × IsStorable o
      × Chain f closed (end_of off o) os end

  pub Chain-le :
      (f : File) (closed : Bool) (off : ℕ) (os : List Object) (end : ℕ)
      → Chain f closed off os end
      → off ≤ end
  Chain-le f closed off [] end h = omega arith
  Chain-le f closed off (o ∷ os) end h = omega (arith, Chain-le f closed (end_of off o) os end h.3)

  -- A write outside the chain leaves it.
  pub Chain-Frame :
      (f g : File) (lo hi : ℕ) (closed : Bool) (off : ℕ) (os : List Object) (end : ℕ)
      → Frame f g lo hi
      → (hi ≤ base + off) ⊎ (base + end ≤ lo)
      → Chain f closed off os end
      → Chain g closed off os end
  Chain-Frame f g lo hi closed off [] end fr h c = c
  Chain-Frame f g lo hi closed off (o ∷ os) end fr h c = (
    fr (base + off) (ObjectHeader.encode (header_of (is_last closed os) off o))
        (omega (arith, len, le)) c.0,
    fr (base + (off + 24)) o.bytes (omega (arith, le)) c.1,
    c.2,
    Chain-Frame f g lo hi closed (end_of off o) os end fr (omega (arith, le)) c.3,
  )
    where
      len : length (ObjectHeader.encode (header_of (is_last closed os) off o)) ≡ 24
      len = ObjectHeader.length-encode (header_of (is_last closed os) off o)

      le : end_of off o ≤ end
      le = Chain-le f closed (end_of off o) os end c.3

  -- An open chain and a closed chain behind it make one closed chain.
  pub Chain-append :
      (f : File) (off : ℕ) (os : List Object) (mid : ℕ) (p : Object) (ps : List Object) (end : ℕ)
      → Chain f false off os mid
      → Chain f true mid (p ∷ ps) end
      → Chain f true off (os ++ (p ∷ ps)) end
  Chain-append f off [] mid p ps end h k = subst (λ m. Chain f true m (p ∷ ps) end) (sym h) k
  Chain-append f off (o ∷ []) mid p ps end h k =
      (h.0, h.1, h.2, subst (λ m. Chain f true m (p ∷ ps) end) (sym h.3) k)
  Chain-append f off (o ∷ o' ∷ os) mid p ps end h k =
      (h.0, h.1, h.2, Chain-append f (end_of off o) (o' ∷ os) mid p ps end h.3 k)
