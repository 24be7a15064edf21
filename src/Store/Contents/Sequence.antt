-- ===== src/Store/Contents/Sequence.antt =====
-- Sequences of `PutObject` (pkg/store/object.go): what a store holds behind any number of them.
use ts_store.Prelude.{
  ℕ, ◌≤◌, ◌≡◌, refl, sym, ap, ◌∙◌, inl, inr, List, [], ◌∷◌, ◌++◌, length, drop, append_assoc,
  append-nil, arith, leb, ◌==◌, Bool-cases,
}
use mathlib.Core.Path.{subst}
use ts_store.Prelude.Int.{ℤ, ◌<ℤ◌, ◌≤ℤ◌}
use ts_store.Store.State.Errors.{ok}
use ts_store.Store.State.{Store}
use ts_store.Store.Packed.{ObjectHandle}
use ts_store.Store.Packed.Contents.{Object, IsStorable, end_of}
use ts_store.Store.Objects.{put_object}
use ts_store.Store.Contents.{Pack, Packs, Stores}
use ts_store.Store.Contents.Spec.{objects, objects_of, put, retire, used}
use ts_store.Store.Contents.Put.{put_object-Stored, put_fits, put_full}
use ts_store.Store.Contents.First.{IsEmpty, put_object_first}
use ts_store.Store.Contents.Reading.{objects-all}

-- Successful calls of `PutObject`, one for each object.
pub data Puts : Store → List Object → Store → Type 0 where
  done : {s : Store} → Puts s [] s
  step :
      {s s' s'' : Store} {o : Object} {os : List Object} {h : ObjectHandle}
      → put_object o.timestamp o.bytes s ≡ (ok h, s')
      → Puts s' os s''
      → Puts s (o ∷ os) s''

-- Objects newer than t and each newer than the one before, that a block of this size can hold.
abbrev pub Increasing : ℕ → ℤ → List Object → Type 0
Increasing size t [] = Unit
Increasing size t (o ∷ os) =
    (t <ℤ o.timestamp) × IsStorable o × (end_of 24 o ≤ size) × Increasing size o.timestamp os

-- The packs go over to the packs with one object more, and objects may go at the front only.
abbrev pub IsSuffix : List Object → List Object → Type 0
IsSuffix xs ys = (lost : List Object) × (lost ++ xs ≡ ys)

retire-IsSuffix : (n : ℕ) (ks : List Pack) → IsSuffix (objects_of (retire n ks)) (objects_of ks)
retire-IsSuffix n ks = elim (Bool-cases (n == length ks)) [
  | inr room ↦ ([], rw room refl)
  | inl full ↦ rw full (dropped ks)
]
  where
    dropped : (l : List Pack) → IsSuffix (objects_of (drop 1 l)) (objects_of l)
    dropped [] = ([], refl)
    dropped (k ∷ l) = (k.first ∷ k.rest, refl)

put-IsSuffix :
    (n size : ℕ) (new : Object) (p : Packs)
    → IsSuffix (objects (put n size new p)) (objects p ++ (new ∷ []))
put-IsSuffix n size new p = elim (Bool-cases (leb (end_of (used p.current) new) size)) [
  | inl fits ↦ (
    [],
    ap objects (put_fits n size new p fits)
        ∙ sym (append_assoc (objects_of p.older) (p.current.first ∷ p.current.rest) (new ∷ [])),
  )
  | inr full ↦
      let all = p.older ++ (p.current ∷ []) in
      let kept = retire-IsSuffix n all in
      (
        kept.0,
        ap (λ q. kept.0 ++ objects q) (put_full n size new p full)
            ∙ sym (append_assoc kept.0 (objects_of (retire n all)) (new ∷ []))
            ∙ ap (λ l. l ++ (new ∷ [])) (kept.1 ∙ objects-all p.older p.current),
      )
]

put-first :
    (n size : ℕ) (new : Object) (p : Packs) (t : ℤ)
    → p.current.first.timestamp ≤ℤ t
    → t <ℤ new.timestamp
    → (put n size new p).current.first.timestamp ≤ℤ new.timestamp
put-first n size new p t le lt = elim (Bool-cases (leb (end_of (used p.current) new) size)) [
  | inl fits ↦ rw (put_fits n size new p fits) (omega arith)
  | inr full ↦ rw (put_full n size new p full) (omega arith)
]

IsSuffix-then :
    (xs ys zs : List Object) (o : Object) (os : List Object)
    → IsSuffix xs (ys ++ os)
    → IsSuffix ys (zs ++ (o ∷ []))
    → IsSuffix xs (zs ++ (o ∷ os))
IsSuffix-then xs ys zs o os (a, e) (b, e') = (
  b ++ a,
  append_assoc b a xs
      ∙ ap (λ l. b ++ l) e
      ∙ sym (append_assoc b ys os)
      ∙ ap (λ l. l ++ os) e'
      ∙ append_assoc zs (o ∷ []) os,
)

-- What a sequence of calls has done: it ends in a store whose contents are the last of the objects.
pub record Sequence (s : Store) (os all : List Object) : Type 0 where
  pub after : Store
  pub contents : Packs
  pub runs : Puts s os after
  pub stores : Stores after contents
  pub suffix : IsSuffix (objects contents) all

puts_from :
    (s : Store) (p : Packs) (t : ℤ) (os : List Object)
    → Stores s p
    → p.current.first.timestamp ≤ℤ t
    → Increasing s.config.data_block_size t os
    → Sequence s os (objects p ++ os)
puts_from s p t [] st le inc = record {
  after = s;
  contents = p;
  runs = done;
  stores = st;
  suffix = ([], sym (append-nil (objects p)));
}
puts_from s p t (o ∷ os) st le inc =
    let one = put_object-Stored s p o st inc.1 inc.2 (omega (arith, le, inc.0)) in
    let q = put s.meta.num_blocks s.config.data_block_size o p in
    let rest =
      puts_from one.after q o.timestamp os one.stores
        (put-first s.meta.num_blocks s.config.data_block_size o p t le inc.0)
        (subst (λ n. Increasing n o.timestamp os) (sym one.size) inc.3) in
    record {
      after = rest.after;
      contents = rest.contents;
      runs = step one.runs rest.runs;
      stores = rest.stores;
      suffix =
          IsSuffix-then (objects rest.contents) (objects q) (objects p) o os rest.suffix
            (put-IsSuffix s.meta.num_blocks s.config.data_block_size o p);
    }

-- Objects with growing timestamps that fit in a block, at least one, are all stored into an empty store:
-- every call succeeds, and the store then holds the last of them in their order, where what is lost is a
-- part at the front.
pub put_object-Sequence :
    (s : Store) (o : Object) (os : List Object)
    → IsEmpty s
    → IsStorable o
    → end_of 24 o ≤ s.config.data_block_size
    → Increasing s.config.data_block_size o.timestamp os
    → Sequence s (o ∷ os) (o ∷ os)
put_object-Sequence s o os empty t room inc =
    let one = put_object_first s empty o t room in
    let rest =
      puts_from one.after (record { older = []; current = record { first = o; rest = [] } })
        o.timestamp os one.stores (omega arith)
        (subst (λ n. Increasing n o.timestamp os) (sym one.size) inc) in
    record {
      after = rest.after;
      contents = rest.contents;
      runs = step one.runs rest.runs;
      stores = rest.stores;
      suffix = rest.suffix;
    }
