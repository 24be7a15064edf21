-- ===== src/Aggregation/Window/Columns.antt =====
-- What an accumulator (internal/aggregation/accumulator.go) knows of one field: its values in the records of
-- the window, in order.
use ts_store.Prelude.{
  ◌+◌, ◌≡◌, refl, sym, ap, ◌∙◌, true, false, Option, none, some, List, [], ◌∷◌, arith, Option-cases,
  Bool-cases, inl, inr, if◌then◌else◌,
}
use mathlib.Core.Path.{subst}
use ts_store.Prelude.Equality.{Bytes, ◌=?◌, bytes_eq}
use ts_store.Prelude.Dict.{Dict, lookup, insert, NodupKeys, lookup-insert, lookup_self}
use ts_store.Aggregation.{
  AggFunc, Config, Floats, Value, FieldState, new_field_state, add_value, first_func, last,
}
use ts_store.Aggregation.Results.{state_from}
use ts_store.Aggregation.Window.{
  Accumulator, new_accumulator, accumulate_field, accumulate_fields, accumulate, funcs_at,
}
use ts_store.Aggregation.Window.State.{bounds-accumulate_field, bounds-accumulate, gather, gathered}

module _ (F : Floats) (Other : Type 0) where
  -- The values of one field.
  abbrev pub column : Bytes → List (Dict Bytes (Value F Other)) → List (Value F Other)
  column g [] = []
  column g (d ∷ ds) = elim (lookup g d) [ none ↦ column g ds | some v ↦ v ∷ column g ds ]

  -- One field's state and functions.
  abbrev Cell : Type 0
  Cell = Option (FieldState F Other) × Option (List AggFunc)

  abbrev pub cell : Bytes → Accumulator F Other → Cell
  cell g a = (lookup g a.fields, lookup g a.field_funcs)

  -- The cell of a field with the given values, which the first of them makes.
  abbrev pub column_cell : Config → Bytes → List (Value F Other) → Cell
  column_cell c g [] = (none, none)
  column_cell c g (v ∷ vs) = (
    some (
        state_from F Other (new_field_state F Other (first_func last (funcs_at F Other c g v)))
          (v ∷ vs)),
    some (funcs_at F Other c g v),
  )

  abbrev absorb : Config → Bytes → Cell → Value F Other → Cell
  absorb c g (some fs, funcs) v = (some (add_value F Other fs v), funcs)
  absorb c g (none, funcs) v = (
    some (add_value F Other (new_field_state F Other (first_func last (funcs_at F Other c g v))) v),
    some (funcs_at F Other c g v),
  )

  abbrev absorb_all : Config → Bytes → Cell → List (Value F Other) → Cell
  absorb_all c g x [] = x
  absorb_all c g x (v ∷ vs) = absorb_all c g (absorb c g x v) vs

  absorb_maybe : Config → Bytes → Cell → Option (Value F Other) → Cell
  absorb_maybe c g x none = x
  absorb_maybe c g x (some v) = absorb c g x v

  cell_here :
      (a : Accumulator F Other) (f : Bytes) (v : Value F Other)
      → cell f (accumulate_field F Other a f v) ≡ absorb a.config f (cell f a) v
  unfolding accumulate_field
  cell_here a f v = elim (Option-cases (lookup f a.fields)) [
    | inl e ↦
        rw
          (
            accumulate_field,
            e,
            lookup_self f
                (add_value F Other
                  (new_field_state F Other (first_func last (funcs_at F Other a.config f v))) v)
                a.fields,
            lookup_self f (funcs_at F Other a.config f v) a.field_funcs,
          )
          refl
    | inr (fs, e) ↦ rw (accumulate_field, e, lookup_self f (add_value F Other fs v) a.fields) refl
  ]

  lookup_apart {ℓ} :
      {V : Type ℓ} (g f : Bytes) (v : V) (m : Dict Bytes V)
      → (g =? f) ≡ false
      → lookup g (insert f v m) ≡ lookup g m
  lookup_apart g f v m h = lookup-insert g f v m ∙ ap (λ b. if b then some v else lookup g m) h

  equal_of_test : (g f : Bytes) → (g =? f) ≡ true → g ≡ f
  equal_of_test g f h = ground (arith, h)

  cell_there :
      (a : Accumulator F Other) (g f : Bytes) (v : Value F Other)
      → (g =? f) ≡ false
      → cell g (accumulate_field F Other a f v) ≡ cell g a
  unfolding accumulate_field
  cell_there a g f v h = elim (Option-cases (lookup f a.fields)) [
    | inl e ↦
        rw
          (
            accumulate_field,
            e,
            lookup_apart g f
                (add_value F Other
                  (new_field_state F Other (first_func last (funcs_at F Other a.config f v))) v)
                a.fields h,
            lookup_apart g f (funcs_at F Other a.config f v) a.field_funcs h,
          )
          refl
    | inr (fs, e) ↦
        rw (accumulate_field, e, lookup_apart g f (add_value F Other fs v) a.fields h) refl
  ]

  cell-accumulate_fields :
      (a : Accumulator F Other) (g : Bytes) (d : Dict Bytes (Value F Other))
      → NodupKeys d
      → cell g (accumulate_fields F Other a d) ≡ absorb_maybe a.config g (cell g a) (lookup g d)
  unfolding accumulate_fields absorb_maybe lookup
  cell-accumulate_fields a g [] u = refl
  cell-accumulate_fields a g ((f, v) ∷ d) (fresh, u) = elim (Bool-cases (g =? f)) [
    | inl h ↦
        subst
          (λ x.
            cell x (accumulate_fields F Other (accumulate_field F Other a f v) d)
            ≡ absorb a.config x (cell x a) v)
          (sym (equal_of_test g f h))
          (cell-accumulate_fields (accumulate_field F Other a f v) f d u
            ∙ ap
                (absorb_maybe (accumulate_field F Other a f v).config f
                  (cell f (accumulate_field F Other a f v)))
                fresh
            ∙ cell_here a f v)
        ∙ sym (ap (λ b. absorb_maybe a.config g (cell g a) (if b then some v else lookup g d)) h)
    | inr h ↦
        cell-accumulate_fields (accumulate_field F Other a f v) g d u
        ∙ ap (λ z. absorb_maybe z.2 g (cell g (accumulate_field F Other a f v)) (lookup g d))
            (bounds-accumulate_field F Other a f v)
        ∙ ap (λ x. absorb_maybe a.config g x (lookup g d)) (cell_there a g f v h)
        ∙ sym (ap (λ b. absorb_maybe a.config g (cell g a) (if b then some v else lookup g d)) h)
  ]

  absorb_all-column_cell :
      (c : Config) (g : Bytes) (vs : List (Value F Other))
      → absorb_all c g (none, none) vs ≡ column_cell c g vs
  absorb_all-column_cell c g [] = refl
  absorb_all-column_cell c g (v ∷ vs) =
      running vs
        (add_value F Other (new_field_state F Other (first_func last (funcs_at F Other c g v))) v)
    where
      running :
          (ws : List (Value F Other)) (fs : FieldState F Other)
          → absorb_all c g (some fs, some (funcs_at F Other c g v)) ws
            ≡ (some (state_from F Other fs ws), some (funcs_at F Other c g v))
      running [] fs = refl
      running (w ∷ ws) fs = running ws (add_value F Other fs w)

  abbrev pub AllNodup : List (Dict Bytes (Value F Other)) → Type 0
  AllNodup [] = Unit
  AllNodup (d ∷ ds) = NodupKeys d × AllNodup ds

  cell-gather :
      (g : Bytes) (ds : List (Dict Bytes (Value F Other))) (a : Accumulator F Other)
      → AllNodup ds
      → cell g (gather F Other a ds) ≡ absorb_all a.config g (cell g a) (column g ds)
  unfolding accumulate absorb_maybe
  cell-gather g [] a u = refl
  cell-gather g (d ∷ ds) a (u, us) =
      cell-gather g ds (accumulate F Other d a) us
      ∙ ap (λ z. absorb_all z.2 g (cell g (accumulate F Other d a)) (column g ds))
          (bounds-accumulate F Other a d)
      ∙ ap (λ x. absorb_all a.config g x (column g ds))
          (cell-accumulate_fields (record a { count = a.count + 1 }) g d u)
      ∙ step (lookup g d)
    where
      step :
          (o : Option (Value F Other))
          → absorb_all a.config g (absorb_maybe a.config g (cell g a) o) (column g ds)
            ≡ absorb_all a.config g
                (cell g a)
                (elim o [ none ↦ column g ds | some v ↦ v ∷ column g ds ])
      step none = refl
      step (some v) = refl

  -- The state and the functions of every field are those of its column.
  pub gathered-columns :
      (c : Config) (g : Bytes) (ds : List (Dict Bytes (Value F Other)))
      → AllNodup ds
      → cell g (gathered F Other c ds) ≡ column_cell c g (column g ds)
  unfolding new_accumulator lookup
  gathered-columns c g ds u =
      cell-gather g ds (new_accumulator F Other c) u ∙ absorb_all-column_cell c g (column g ds)
