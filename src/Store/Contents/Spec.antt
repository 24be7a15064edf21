-- ===== src/Store/Contents/Spec.antt =====
-- What a store promises: the oldest block goes when room is needed, and nothing else is lost.
use ts_store.Prelude.{ℕ, List, [], ◌∷◌, ◌++◌, length, drop, leb, ◌==◌, if◌then◌else◌}
use ts_store.Store.Packed.Contents.{Object, end_of}
use ts_store.Store.Contents.{Pack, Packs}

-- The offset behind a list of objects.
abbrev pub ends_at : ℕ → List Object → ℕ
ends_at off [] = off
ends_at off (o ∷ os) = ends_at (end_of off o) os

abbrev pub used : Pack → ℕ
used k = ends_at 24 (k.first ∷ k.rest)

abbrev pub objects_of : List Pack → List Object
objects_of [] = []
objects_of (k ∷ ks) = (k.first ∷ k.rest) ++ objects_of ks

-- All objects, oldest first.
abbrev pub objects : Packs → List Object
objects p = objects_of p.older ++ (p.current.first ∷ p.current.rest)

-- A full circle drops its oldest block.
abbrev pub retire : ℕ → List Pack → List Pack
retire num_blocks ks = if num_blocks == length ks then drop 1 ks else ks

-- Storing one object, by block count and block size.
unfoldable pub put : ℕ → ℕ → Object → Packs → Packs
put num_blocks size new p =
    if leb (end_of (used p.current) new) size
    then record p { current = record (p.current) { rest = p.current.rest ++ (new ∷ []) } }
    else record {
      older = retire num_blocks (p.older ++ (p.current ∷ []));
      current = record { first = new; rest = [] };
    }
