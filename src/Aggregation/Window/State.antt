-- ===== src/Aggregation/Window/State.antt =====
-- The state of an accumulator (internal/aggregation/accumulator.go) while the records of one window come in.
use ts_store.Prelude.{
  ℕ, ◌+◌, ◌*◌, ◌/◌, ◌^◌, ◌<◌, ◌≡◌, refl, sym, ap, ◌∙◌, none, some, List, [], ◌∷◌, ◌++◌, length,
  arith, Option-cases, inl, inr,
}
use native.Mathlib.Nat.{div-mul-le_self}
use ts_store.Prelude.Int.{ℤ, pos}
use ts_store.Prelude.Equality.{Bytes, bytes_eq}
use ts_store.Prelude.Dict.{Dict, lookup, insert}
use ts_store.Aggregation.{
  AggFunc, Config, Floats, Value, FieldState, new_field_state, add_value, first_func, last,
}
use ts_store.Aggregation.Window.{
  Accumulator, new_accumulator, init_window, accumulate_field, accumulate_fields, accumulate,
  funcs_at, add_int64, magnitude,
}
use ts_store.Aggregation.Window.Counts.{count-accumulate}

module _ (F : Floats) (Other : Type 0) where
  -- What the records of a window decide: the configuration, the fields and their functions, the count.
  abbrev pub Core : Type 0
  Core = Config × Dict Bytes (FieldState F Other) × Dict Bytes (List AggFunc) × ℕ

  abbrev pub core : Accumulator F Other → Core
  core a = (a.config, a.fields, a.field_funcs, a.count)

  core_field : Core → Bytes → Value F Other → Core
  core_field (c, fields, funcs, n) f v = elim (lookup f fields) [
    | some fs ↦ (c, insert f (add_value F Other fs v) fields, funcs, n)
    | none ↦ (
      c,
      insert f
          (add_value F Other (new_field_state F Other (first_func last (funcs_at F Other c f v))) v)
          fields,
      insert f (funcs_at F Other c f v) funcs,
      n,
    )
  ]

  core_fields : Core → Dict Bytes (Value F Other) → Core
  core_fields x [] = x
  core_fields x ((f, v) ∷ d) = core_fields (core_field x f v) d

  core-accumulate_field :
      (a : Accumulator F Other) (f : Bytes) (v : Value F Other)
      → core (accumulate_field F Other a f v) ≡ core_field (core a) f v
  unfolding accumulate_field core_field
  core-accumulate_field a f v = elim (Option-cases (lookup f a.fields)) [
    | inl e ↦ rw (accumulate_field, core_field, e) refl
    | inr (fs, e) ↦ rw (accumulate_field, core_field, e) refl
  ]

  core-accumulate_fields :
      (a : Accumulator F Other) (d : Dict Bytes (Value F Other))
      → core (accumulate_fields F Other a d) ≡ core_fields (core a) d
  unfolding accumulate_fields core_fields
  core-accumulate_fields a [] = refl
  core-accumulate_fields a ((f, v) ∷ d) =
      core-accumulate_fields (accumulate_field F Other a f v) d
      ∙ ap (λ x. core_fields x d) (core-accumulate_field a f v)

  counted_core : Core → Core
  counted_core (c, fields, funcs, n) = (c, fields, funcs, n + 1)

  core-accumulate :
      (a : Accumulator F Other) (d : Dict Bytes (Value F Other))
      → core (accumulate F Other d a) ≡ core_fields (counted_core (core a)) d
  unfolding accumulate counted_core
  core-accumulate a d = core-accumulate_fields (record a { count = a.count + 1 }) d

  -- Two accumulators with one core have one core after a record.
  pub accumulate-core :
      (a b : Accumulator F Other) (d : Dict Bytes (Value F Other))
      → core a ≡ core b
      → core (accumulate F Other d a) ≡ core (accumulate F Other d b)
  accumulate-core a b d h =
      core-accumulate a d ∙ ap (λ x. core_fields (counted_core x) d) h ∙ sym (core-accumulate b d)

  -- The window that an accumulator is in, and its configuration.
  abbrev pub bounds : Accumulator F Other → ℤ × ℤ × Config
  bounds a = (a.window_nanos, a.window_end, a.config)

  pub bounds-accumulate_field :
      (a : Accumulator F Other) (f : Bytes) (v : Value F Other)
      → bounds (accumulate_field F Other a f v) ≡ bounds a
  unfolding accumulate_field
  bounds-accumulate_field a f v = elim (Option-cases (lookup f a.fields)) [
    | inl e ↦ rw (accumulate_field, e) refl
    | inr (fs, e) ↦ rw (accumulate_field, e) refl
  ]

  bounds-accumulate_fields :
      (a : Accumulator F Other) (d : Dict Bytes (Value F Other))
      → bounds (accumulate_fields F Other a d) ≡ bounds a
  unfolding accumulate_fields
  bounds-accumulate_fields a [] = refl
  bounds-accumulate_fields a ((f, v) ∷ d) =
      bounds-accumulate_fields (accumulate_field F Other a f v) d ∙ bounds-accumulate_field a f v

  pub bounds-accumulate :
      (a : Accumulator F Other) (d : Dict Bytes (Value F Other))
      → bounds (accumulate F Other d a) ≡ bounds a
  unfolding accumulate
  bounds-accumulate a d = bounds-accumulate_fields (record a { count = a.count + 1 }) d

  -- The accumulator of a configuration that has taken the records of one list.
  abbrev pub gather : Accumulator F Other → List (Dict Bytes (Value F Other)) → Accumulator F Other
  gather a [] = a
  gather a (d ∷ ds) = gather (accumulate F Other d a) ds

  abbrev pub gathered : Config → List (Dict Bytes (Value F Other)) → Accumulator F Other
  gathered c ds = gather (new_accumulator F Other c) ds

  gather-append :
      (a : Accumulator F Other) (ds : List (Dict Bytes (Value F Other)))
      (d : Dict Bytes (Value F Other))
      → gather a (ds ++ (d ∷ [])) ≡ accumulate F Other d (gather a ds)
  gather-append a [] d = refl
  gather-append a (e ∷ ds) d = gather-append (accumulate F Other e a) ds d

  count-gather :
      (a : Accumulator F Other) (ds : List (Dict Bytes (Value F Other)))
      → (gather a ds).count ≡ a.count + length ds
  count-gather a [] = omega arith
  count-gather a (d ∷ ds) =
      omega (arith, count-gather (accumulate F Other d a) ds, count-accumulate F Other a d)

  pub count-gathered :
      (c : Config) (ds : List (Dict Bytes (Value F Other))) → (gathered c ds).count ≡ length ds
  unfolding new_accumulator
  count-gathered c ds = count-gather (new_accumulator F Other c) ds ∙ omega arith

  -- An accumulator in the window of number k, whose width is w, with the records of a list.
  pub record InWindow (c : Config) (w k : ℕ) (ds : List (Dict Bytes (Value F Other)))
      (a : Accumulator F Other) : Type 0 where
    pub window : bounds a ≡ (pos w, pos (k * w + w), c)
    pub records : core a ≡ core (gathered c ds)

  pub accumulate-InWindow :
      (c : Config) (w k : ℕ) (ds : List (Dict Bytes (Value F Other))) (a : Accumulator F Other)
      → InWindow c w k ds a
      → (d : Dict Bytes (Value F Other)) → InWindow c w k (ds ++ (d ∷ [])) (accumulate F Other d a)
  accumulate-InWindow c w k ds a i d = record {
    window = bounds-accumulate a d ∙ i.window;
    records =
        accumulate-core a (gathered c ds) d i.records
        ∙ sym (ap core (gather-append (new_accumulator F Other c) ds d));
  }

  add_no_wrap : (x w : ℕ) → x + w < 2 ^ 63 → add_int64 (pos x) (pos w) ≡ pos (x + w)
  add_no_wrap x w h = ground (arith, h)

  -- The window that a timestamp opens.
  pub init_window-InWindow :
      (c : Config) (w n : ℕ) (a : Accumulator F Other)
      → n + w < 2 ^ 63
      → a.config ≡ c
      → a.window_nanos ≡ pos w
      → InWindow c w (n / w) [] (init_window F Other (pos n) a)
  unfolding init_window new_accumulator
  init_window-InWindow c w n a lt same nanos = record {
    window =
        ap (λ z. (z, add_int64 (pos (n / magnitude z * magnitude z)) z, a.config)) nanos
        ∙ ap (λ z. (pos w, add_int64 (pos (n / w * w)) (pos w), z)) same
        ∙ ap (λ z. (pos w, z, c))
            (add_no_wrap (n / w * w) w (omega (arith, lt, div-mul-le_self n w)));
    records = ap (λ z. (z, [], [], 0)) same;
  }
