-- ===== src/Store/Contents/Walk.antt =====
-- The inner loop of `GetObjectsInRange` (pkg/store/object.go) on handles with growing timestamps.
use ts_store.Prelude.{
  zero, suc, ◌≡◌, refl, sym, ap, ◌∙◌, ◌⊎◌, inl, inr, Bool, true, false, ◌&&◌, List, [], ◌∷◌, ◌++◌,
  length-append, take_all, append_assoc, append-nil, arith, Bool-cases, if◌then◌else◌,
}
use ts_store.Prelude.Int.{ℤ, pos, negsuc, ◌≤ℤ◌, ◌<ℤ◌, ltb_ℤ, leb_ℤ}
use ts_store.Store.Packed.{ObjectHandle}
use ts_store.Store.Objects.Query.{append_in_range, wants_more, is_full}
use ts_store.Store.Contents.Listing.{limited, IsUnder, limited-full}

-- Handles newer than t, each newer than the one before.
abbrev pub Ascending : ℤ → List ObjectHandle → Type 0
Ascending t [] = Unit
Ascending t (h ∷ hs) = (t <ℤ h.timestamp) × Ascending h.timestamp hs

-- The handles whose timestamps lie in the range.
abbrev pub in_range : ℤ → ℤ → List ObjectHandle → List ObjectHandle
in_range start end [] = []
in_range start end (h ∷ hs) =
    let rest = in_range start end hs in
    if leb_ℤ start h.timestamp && leb_ℤ h.timestamp end then h ∷ rest else rest

pub Ascending-weaken : (t u : ℤ) (hs : List ObjectHandle) → t ≤ℤ u → Ascending u hs → Ascending t hs
Ascending-weaken t u [] le a = tt
Ascending-weaken t u (h ∷ hs) le a = (omega (arith, a.0), a.1)

pub Ascending-append_right :
    (t : ℤ) (xs ys : List ObjectHandle) → Ascending t (xs ++ ys) → Ascending t ys
Ascending-append_right t [] ys a = a
Ascending-append_right t (x ∷ xs) ys a =
    Ascending-weaken t x.timestamp ys (omega (arith, a.0))
      (Ascending-append_right x.timestamp xs ys a.1)

late_test : (start end t : ℤ) → end <ℤ t → (leb_ℤ start t && leb_ℤ t end) ≡ false
late_test start end t h = ground arith

-- Handles newer than the end of the range do not lie in it.
pub in_range-none :
    (start end t : ℤ) (hs : List ObjectHandle)
    → end ≤ℤ t
    → Ascending t hs
    → in_range start end hs ≡ []
in_range-none start end t [] le a = refl
in_range-none start end t (h ∷ hs) le a =
    rw (late_test start end h.timestamp (omega (arith, a.0, le)))
      (in_range-none start end h.timestamp hs (omega (arith, a.0, le)) a.1)

pub in_range-append :
    (start end : ℤ) (xs ys : List ObjectHandle)
    → in_range start end (xs ++ ys) ≡ in_range start end xs ++ in_range start end ys
in_range-append start end [] ys = refl
in_range-append start end (x ∷ xs) ys =
    elim (Bool-cases (leb_ℤ start x.timestamp && leb_ℤ x.timestamp end)) [
      | inl yes_in ↦ rw yes_in (ap (λ l. x ∷ l) (in_range-append start end xs ys))
      | inr not_in ↦ rw not_in (in_range-append start end xs ys)
    ]

-- Room under the limit for one more.
abbrev pub HasRoom : ℤ → List ObjectHandle → Type 0
HasRoom limit acc = wants_more limit acc ≡ true

pub HasRoom-IsUnder : (limit : ℤ) (acc : List ObjectHandle) → HasRoom limit acc → IsUnder limit acc
HasRoom-IsUnder (pos zero) acc h = refl
HasRoom-IsUnder (negsuc n) acc h = refl
HasRoom-IsUnder (pos (suc n)) acc h = take_all (suc n) acc (ground (arith, h))

not_full : (limit : ℤ) (acc : List ObjectHandle) → is_full limit acc ≡ false → HasRoom limit acc
not_full limit acc h = ground (arith, h)

full_up :
    (limit : ℤ) (acc : List ObjectHandle) → is_full limit acc ≡ true → wants_more limit acc ≡ false
full_up limit acc h = ground (arith, h)

-- One more handle than there was room for fits.
grown-IsUnder :
    (limit : ℤ) (acc : List ObjectHandle) (h : ObjectHandle)
    → HasRoom limit acc
    → IsUnder limit (acc ++ (h ∷ []))
grown-IsUnder (pos zero) acc h r = refl
grown-IsUnder (negsuc n) acc h r = refl
grown-IsUnder (pos (suc n)) acc h r =
    take_all (suc n) (acc ++ (h ∷ [])) (ground (arith, r, length-append acc (h ∷ [])))

-- What the loop over one block leaves, from `acc` on, where `here` are the block's handles in the range and
-- `all` those of the blocks behind it too: either it has the answer, or it has added the block's handles and
-- there is still room.
abbrev pub Walked :
    ℤ
    → List ObjectHandle
    → List ObjectHandle
    → List ObjectHandle
    → List ObjectHandle × Bool
    → Type 0
Walked limit acc here all w =
    ((w.1 ≡ true) × (w.0 ≡ limited limit (acc ++ all)))
    ⊎ ((w.1 ≡ false) × (w.0 ≡ acc ++ here) × HasRoom limit (acc ++ here))

Walked-cons :
    (limit : ℤ) (acc : List ObjectHandle) (h : ObjectHandle) (here all : List ObjectHandle)
    (w : List ObjectHandle × Bool)
    → Walked limit (acc ++ (h ∷ [])) here all w
    → Walked limit acc (h ∷ here) (h ∷ all) w
Walked-cons limit acc h here all w (inl (d, e)) =
    inl (d, e ∙ ap (limited limit) (append_assoc acc (h ∷ []) all))
Walked-cons limit acc h here all w (inr (d, e, r)) = inr (
  d,
  e ∙ append_assoc acc (h ∷ []) here,
  ap (wants_more limit) (sym (append_assoc acc (h ∷ []) here)) ∙ r,
)

walk_nil :
    (start end limit : ℤ) (acc : List ObjectHandle)
    → append_in_range start end limit acc [] ≡ (acc, false)
unfolding append_in_range
walk_nil start end limit acc = refl

module _ (start end limit : ℤ) (acc : List ObjectHandle) (h : ObjectHandle)
    (hs : List ObjectHandle) where
  walk_late :
      ltb_ℤ end h.timestamp ≡ true → append_in_range start end limit acc (h ∷ hs) ≡ (acc, true)
  unfolding append_in_range
  walk_late late = rw (late, append_in_range) refl

  walk_early :
      ltb_ℤ end h.timestamp ≡ false
      → leb_ℤ start h.timestamp ≡ false
      → append_in_range start end limit acc (h ∷ hs) ≡ append_in_range start end limit acc hs
  unfolding append_in_range
  walk_early late early = rw (late, early, append_in_range) refl

  walk_full :
      ltb_ℤ end h.timestamp ≡ false
      → leb_ℤ start h.timestamp ≡ true
      → is_full limit (acc ++ (h ∷ [])) ≡ true
      → append_in_range start end limit acc (h ∷ hs) ≡ (acc ++ (h ∷ []), true)
  unfolding append_in_range
  walk_full late early full = rw (late, early, full, append_in_range) refl

  walk_more :
      ltb_ℤ end h.timestamp ≡ false
      → leb_ℤ start h.timestamp ≡ true
      → is_full limit (acc ++ (h ∷ [])) ≡ false
      → append_in_range start end limit acc (h ∷ hs)
        ≡ append_in_range start end limit (acc ++ (h ∷ [])) hs
  unfolding append_in_range
  walk_more late early full = rw (late, early, full, append_in_range) refl

early_test : (start end t : ℤ) → leb_ℤ start t ≡ false → (leb_ℤ start t && leb_ℤ t end) ≡ false
early_test start end t h = rw h refl

inside_test :
    (start end t : ℤ)
    → leb_ℤ start t ≡ true
    → ltb_ℤ end t ≡ false
    → (leb_ℤ start t && leb_ℤ t end) ≡ true
inside_test start end t h k = rw h (within end t k)
  where
    within : (a b : ℤ) → ltb_ℤ a b ≡ false → leb_ℤ b a ≡ true
    within a b e = ground (arith, e)

after_end : (end t : ℤ) → ltb_ℤ end t ≡ true → end <ℤ t
after_end end t h = ground (arith, h)

module _ (start end limit : ℤ) where
  pub append_in_range-Walked :
      (t : ℤ) (acc hs later : List ObjectHandle)
      → HasRoom limit acc
      → Ascending t (hs ++ later)
      → Walked limit acc
          (in_range start end hs)
          (in_range start end (hs ++ later))
          (append_in_range start end limit acc hs)
  append_in_range-Walked t acc [] later room a = inr (
    ap (λ w. w.1) (walk_nil start end limit acc),
    ap (λ w. w.0) (walk_nil start end limit acc) ∙ sym (append-nil acc),
    ap (wants_more limit) (append-nil acc) ∙ room,
  )
  append_in_range-Walked t acc (h ∷ hs) later room a = elim (Bool-cases (ltb_ℤ end h.timestamp)) [
    | inl late ↦
        let none : in_range start end (h ∷ (hs ++ later)) ≡ [] =
          rw (late_test start end h.timestamp (after_end end h.timestamp late)) (
            in_range-none start end h.timestamp (hs ++ later)
              (omega (arith, after_end end h.timestamp late)) a.1) in
        rw (walk_late start end limit acc h hs late) (
          inl (
            refl,
            sym (HasRoom-IsUnder limit acc room)
                ∙ ap (limited limit) (sym (append-nil acc) ∙ ap (λ l. acc ++ l) (sym none)),
          ))
    | inr not_late ↦ elim (Bool-cases (leb_ℤ start h.timestamp)) [
      | inr early ↦
          rw
            (
              walk_early start end limit acc h hs not_late early,
              early_test start end h.timestamp early,
            )
            (append_in_range-Walked h.timestamp acc hs later room a.1)
      | inl not_early ↦ elim (Bool-cases (is_full limit (acc ++ (h ∷ [])))) [
        | inl full ↦
            rw
              (
                walk_full start end limit acc h hs not_late not_early full,
                inside_test start end h.timestamp not_early not_late,
              )
              (inl (
                refl,
                sym (
                      limited-full limit (acc ++ (h ∷ [])) (in_range start end (hs ++ later))
                        (grown-IsUnder limit acc h room) (full_up limit (acc ++ (h ∷ [])) full))
                    ∙ ap (limited limit)
                        (append_assoc acc (h ∷ []) (in_range start end (hs ++ later))),
              ))
        | inr more ↦
            rw
              (
                walk_more start end limit acc h hs not_late not_early more,
                inside_test start end h.timestamp not_early not_late,
              )
              (Walked-cons limit acc h (in_range start end hs) (in_range start end (hs ++ later))
                (append_in_range start end limit (acc ++ (h ∷ [])) hs)
                (append_in_range-Walked h.timestamp (acc ++ (h ∷ [])) hs later
                  (not_full limit (acc ++ (h ∷ [])) more) a.1))
      ]
    ]
  ]
