-- ===== src/Ws/Manager/Agreement.antt =====
-- The connections that a manager (internal/ws/manager.go) runs are those of its file.
use ts_store.Prelude.Int.{pos, ◌≤ℤ◌, ◌<ℤ◌}
use ts_store.Prelude.{
  ◌<◌, sym, Bool, false, ◌≡◌, refl, ap, ◌∙◌, true, ◌||◌, Option, some, List, [], ◌∷◌, ◌++◌, arith,
  if◌then◌else◌, Option-cases, Bool-cases, inl, inr,
}
use mathlib.Core.Path.{subst}
use mathlib.Core.Option.{none-ne-some, some-injective}
use ts_store.Prelude.Equality.{Bytes, ◌=?◌, bytes_eq}
use ts_store.Prelude.Dict.{Dict, lookup, insert, lookup-insert}
use ts_store.Prelude.Outcome.{done}
use ts_store.WriteFile.{written}
use ts_store.Ws.Config.{
  Io, WsConnection, Codec, File, find_connection, without_connection, load_ws_connections,
}
use ts_store.Ws.Config.Lists.{is_some, none_of, DistinctIds}
use ts_store.Ws.Manager.{
  Connections, Manager, new_manager, create_connection_locked, start_all, load_and_start, is_mode,
  push, pull,
}

abbrev pub IsAscii : Bytes → Type 0
IsAscii [] = Unit
IsAscii (b ∷ bs) = (b < 128) × IsAscii bs

-- A configuration with a known mode, an ASCII text as its ID, and a time of creation from 1970 to the year 9999, which
-- JSON can write.
pub record IsPlain (c : WsConnection) : Type 0 where
  pub mode : is_mode c.mode ≡ true
  pub ascii : IsAscii c.id
  pub since : pos 0 ≤ℤ c.created_at
  pub until : c.created_at <ℤ pos 253402300800000000000

abbrev pub AllPlain : List WsConnection → Type 0
AllPlain [] = Unit
AllPlain (c ∷ cs) = IsPlain c × AllPlain cs

-- The same ID, mode and time of creation. The headers, whose order a map does not keep, may differ.
abbrev pub Alike : WsConnection → WsConnection → Type 0
Alike c d = (c.id ≡ d.id) × (c.mode ≡ d.mode) × (c.created_at ≡ d.created_at)

abbrev pub AllAlike : List WsConnection → List WsConnection → Type 0
AllAlike [] [] = Unit
AllAlike [] (d ∷ ds) = ⊥
AllAlike (c ∷ cs) [] = ⊥
AllAlike (c ∷ cs) (d ∷ ds) = Alike c d × AllAlike cs ds

-- Plain configurations can be read back from their JSON form, in their order.
abbrev pub ReadsBack : Codec → Type 0
ReadsBack C =
    (cs : List WsConnection)
    → AllPlain cs
    → (ds : List WsConnection) × (C.decode (C.encode cs) ≡ some ds) × AllAlike cs ds

pub AllAlike-plain : (cs ds : List WsConnection) → AllAlike cs ds → AllPlain cs → AllPlain ds
AllAlike-plain [] [] l p = tt
AllAlike-plain [] (d ∷ ds) l p = absurd l
AllAlike-plain (c ∷ cs) [] l p = absurd l
AllAlike-plain (c ∷ cs) (d ∷ ds) ((i, m, t), l) (p, ps) = (
  record {
    mode = subst (λ x. is_mode x ≡ true) m p.mode;
    ascii = subst IsAscii i p.ascii;
    since = subst (λ x. pos 0 ≤ℤ x) t p.since;
    until = subst (λ x. x <ℤ pos 253402300800000000000) t p.until;
  },
  AllAlike-plain cs ds l ps,
)

pub AllAlike-found :
    (id : Bytes) (cs ds : List WsConnection)
    → AllAlike cs ds
    → is_some (find_connection id ds) ≡ is_some (find_connection id cs)
unfolding find_connection
AllAlike-found id [] [] l = refl
AllAlike-found id [] (d ∷ ds) l = absurd l
AllAlike-found id (c ∷ cs) [] l = absurd l
AllAlike-found id (c ∷ cs) (d ∷ ds) ((i, _, _), l) =
    found_step (c.id =? id) (d.id =? id) c d (find_connection id cs) (find_connection id ds)
      (ap (λ x. x =? id) i) (AllAlike-found id cs ds l)
  where
    found_step :
        (a b : Bool) (c d : WsConnection) (o p : Option WsConnection)
        → a ≡ b
        → is_some p ≡ is_some o
        → is_some (if b then some d else p) ≡ is_some (if a then some c else o)
    found_step true true c d o p e h = refl
    found_step true false c d o p e h = absurd (ground (arith, e))
    found_step false true c d o p e h = absurd (ground (arith, e))
    found_step false false c d o p e h = h

pub AllAlike-distinct :
    (cs ds : List WsConnection) → AllAlike cs ds → DistinctIds cs → DistinctIds ds
AllAlike-distinct [] [] l u = tt
AllAlike-distinct [] (d ∷ ds) l u = absurd l
AllAlike-distinct (c ∷ cs) [] l u = absurd l
AllAlike-distinct (c ∷ cs) (d ∷ ds) ((i, m, t), l) (u, us) = (
  none_of (find_connection d.id ds)
      (AllAlike-found d.id cs ds l ∙ ap is_some (ap (λ x. find_connection x cs) (sym i) ∙ u)),
  AllAlike-distinct cs ds l us,
)

-- Nothing fails.
abbrev pub fine : Io
fine = record { readable = true; write = written }

-- A connection has the ID of its configuration.
pub record KeepsIds (K : Connections) : Type 0 where
  pub pusher : (c : WsConnection) → K.id (K.make_pusher c) ≡ c.id
  pub puller : (c : WsConnection) → K.id (K.make_puller c) ≡ c.id

pub AllPlain-append :
    (cs : List WsConnection) (c : WsConnection)
    → AllPlain cs
    → IsPlain c
    → AllPlain (cs ++ (c ∷ []))
AllPlain-append [] c a m = (m, tt)
AllPlain-append (d ∷ cs) c a m = (a.0, AllPlain-append cs c a.1 m)

pub AllPlain-without :
    (id : Bytes) (cs rest : List WsConnection)
    → AllPlain cs
    → without_connection id cs ≡ some rest
    → AllPlain rest
unfolding without_connection
AllPlain-without id [] rest a e = cc
AllPlain-without id (c ∷ cs) rest a e = elim (Bool-cases (c.id =? id)) [
  | inl same ↦ subst AllPlain (some-injective cs rest (rw same at e)) a.1
  | inr differ ↦ elim (Option-cases (without_connection id cs)) [
    | inl gone ↦ absurd (none-ne-some rest (rw (differ, gone) at e))
    | inr (l, left) ↦
        subst AllPlain (some-injective (c ∷ l) rest (rw (differ, left) at e))
          (a.0, AllPlain-without id cs l a.1 left)
  ]
]

module _ (K : Connections) (C : Codec) (ids : KeepsIds K) where
  -- A configuration with one of the two modes makes a connection with its ID.
  pub create_connection_locked_made :
      (c : WsConnection)
      → is_mode c.mode ≡ true
      → (conn : K.Conn) × (create_connection_locked K C c ≡ done conn) × (K.id conn ≡ c.id)
  unfolding create_connection_locked
  create_connection_locked_made c m = elim (Bool-cases (c.mode =? push)) [
    | inl e ↦ (K.make_pusher c, rw e refl, ids.pusher c)
    | inr n ↦ elim (Bool-cases (c.mode =? pull)) [
      | inl e ↦ (K.make_puller c, rw (n, e) refl, ids.puller c)
      | inr n' ↦ absurd (ground (arith, m, n, n'))
    ]
  ]

  inserted :
      (id k : Bytes) (c : WsConnection) (v : K.Conn) (o : Option K.Conn) (f : Option WsConnection)
      → k ≡ c.id
      → (is_some (if id =? k then some v else o) || is_some f)
        ≡ (is_some o || is_some (if c.id =? id then some c else f))
  inserted id k c v o f e = ground (arith, e)

  -- The keys of the map behind the loop: those that were there, and the IDs of the configurations.
  pub start_all-keys :
      (cs : List WsConnection) (m : Dict Bytes K.Conn) (id : Bytes)
      → AllPlain cs
      → is_some (lookup id (start_all K C cs m))
        ≡ (is_some (lookup id m) || is_some (find_connection id cs))
  unfolding start_all find_connection
  start_all-keys [] m id a = ground arith
  start_all-keys (c ∷ cs) m id a =
      let (conn, made, same) = create_connection_locked_made c a.0.mode in
      let m' = insert (K.id conn) (K.start conn) m in
      let stepped : start_all K C (c ∷ cs) m ≡ start_all K C cs m' = rw (made, start_all) refl in
      ap (λ x. is_some (lookup id x)) stepped
      ∙ start_all-keys cs m' id a.1
      ∙ ap (λ o. is_some o || is_some (find_connection id cs))
          (lookup-insert id (K.id conn) (K.start conn) m)
      ∙ inserted id (K.id conn) c (K.start conn) (lookup id m) (find_connection id cs) same

  -- The connections that run are those of the file, whose IDs are distinct.
  pub record Agrees (m : Manager K C) : Type 0 where
    pub configs : List WsConnection
    pub loads : load_ws_connections C fine m.file ≡ done configs
    pub keys :
        (id : Bytes) → is_some (lookup id m.connections) ≡ is_some (find_connection id configs)
    pub distinct : DistinctIds configs
    pub plain : AllPlain configs

  -- What a new manager runs that starts what its file holds.
  pub load_and_start-keys :
      (f : File) (cs : List WsConnection) (id : Bytes)
      → load_ws_connections C fine f ≡ done cs
      → AllPlain cs
      → is_some (lookup id (load_and_start K C fine (new_manager K C f)).1.connections)
        ≡ is_some (find_connection id cs)
  unfolding load_and_start lookup
  load_and_start-keys f cs id e a = rw e (start_all-keys cs [] id a)

  -- A new manager that starts what its file holds agrees with the file.
  pub load_and_start-Agrees :
      (f : File) (cs : List WsConnection)
      → load_ws_connections C fine f ≡ done cs
      → DistinctIds cs
      → AllPlain cs
      → ((load_and_start K C fine (new_manager K C f)).0 ≡ done tt)
        × Agrees (load_and_start K C fine (new_manager K C f)).1
  unfolding load_and_start lookup
  load_and_start-Agrees f cs e d a = (
    rw e refl,
    rw e (record {
      configs = cs;
      loads = e;
      keys = λ id. start_all-keys cs [] id a;
      distinct = d;
      plain = a;
    }),
  )
