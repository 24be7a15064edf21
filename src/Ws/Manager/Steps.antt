-- ===== src/Ws/Manager/Steps.antt =====
-- Additions and removals (internal/ws/manager.go) keep a manager and its file together.
use ts_store.Prelude.{
  ◌⊎◌, ◌≡◌, refl, sym, ap, ◌∙◌, Bool, true, false, ◌||◌, Option, none, some, List, [], ◌∷◌, ◌++◌,
  arith, if◌then◌else◌, Option-cases, inl, inr,
}
use mathlib.Core.Path.{subst}
use ts_store.Prelude.Int.{ℤ, pos, ◌≤ℤ◌, ◌<ℤ◌}
use ts_store.Prelude.Equality.{Bytes, ◌=?◌, bytes_eq}
use ts_store.Prelude.Dict.{lookup, insert, erase, lookup-insert, lookup-erase}
use ts_store.Prelude.Outcome.{Outcome, done, failed}
use ts_store.WriteFile.{Write, written, unreached, torn, write_file}
use ts_store.Ws.Config
use ts_store.Ws.Config.{
  WsConnection, Codec, File, Io, find_connection, without_connection, load_ws_connections,
  save_ws_connections, add_ws_connection, remove_ws_connection,
}
use ts_store.Ws.Config.Lists.{
  is_some, none_of, some_of, find_connection-append, DistinctIds, DistinctIds-append,
  without_connection-Removed,
}
use ts_store.Ws.Manager.{
  Err, Connections, Manager, manager_closed, invalid_mode, started, added, create_connection,
  delete_connection, connection_of, CreateConnectionRequest, is_mode,
}
use ts_store.Ws.Manager.Agreement.{
  ReadsBack, KeepsIds, IsAscii, IsPlain, AllPlain, AllAlike, fine, AllAlike-found,
  AllAlike-distinct, AllAlike-plain, AllPlain-append, AllPlain-without,
  create_connection_locked_made, Agrees,
}

-- The write does not break off.
abbrev pub IsWhole : Write → Type 0
IsWhole written = Unit
IsWhole unreached = Unit
IsWhole (torn n) = ⊥

module _ (K : Connections) (C : Codec) (ids : KeepsIds K) (back : ReadsBack C) where
  -- What was saved is loaded again, up to the headers.
  load-save :
      (cs : List WsConnection)
      → AllPlain cs
      → (ds : List WsConnection) × (load_ws_connections C fine (some (C.encode cs)) ≡ done ds)
        × AllAlike cs ds
  unfolding load_ws_connections
  load-save cs p = let (ds, e, l) = back cs p in (ds, rw e refl, l)

  erased :
      (b x : Bool) (o : Option K.Conn)
      → is_some o ≡ x
      → is_some (if b then none else o) ≡ (if b then false else x)
  erased true x o e = refl
  erased false x o e = e

  one_more :
      (j id : Bytes) (v : K.Conn) (x : Bool) (o : Option K.Conn)
      → is_some o ≡ x
      → is_some (if j =? id then some v else o) ≡ (x || id =? j)
  one_more j id v x o e = ground (arith, e)

  -- The file behind a removal and an addition, where the configurations are known.
  removal :
      (id : Bytes) (cs rest : List WsConnection) (f : File)
      → load_ws_connections C fine f ≡ done cs
      → without_connection id cs ≡ some rest
      → remove_ws_connection C fine id f ≡ (done tt, some (C.encode rest))
  unfolding remove_ws_connection save_ws_connections write_file
  removal id cs rest f e w = rw (e, remove_ws_connection, w) refl

  abbrev saved :
      WsConnection
      → File
      → Write
      → Outcome Config.Err (List WsConnection)
      → Outcome Config.Err (Unit {0}) × File
  saved c f w o = elim o [
    | failed e ↦ (failed e, f)
    | done cs ↦ (Config.write_error C w, write_file w (C.encode (cs ++ (c ∷ []))) f)
  ]

  addition :
      (readable : Bool) (write : Write) (c : WsConnection) (cs : List WsConnection) (f : File)
      → IsWhole write
      → load_ws_connections C fine f ≡ done cs
      → (add_ws_connection C (record { readable = readable; write = write }) c f
          ≡ (done tt, some (C.encode (cs ++ (c ∷ [])))))
        ⊎ ((e : Config.Err) × (add_ws_connection C
                (record { readable = readable; write = write })
                c
                f
              ≡ (failed e, f)))
  unfolding add_ws_connection save_ws_connections write_file load_ws_connections
  addition r (torn n) c cs f h e = absurd h
  addition true written c cs f h e = inl (ap (saved c f written) e)
  addition true unreached c cs f h e = inr (Config.file_failed, ap (saved c f unreached) e)
  addition false written c cs none h e = inl (ap (saved c none written) e)
  addition false unreached c cs none h e = inr (Config.file_failed, ap (saved c none unreached) e)
  addition false w c cs (some bs) h e = inr (Config.file_failed, refl)

  -- A list that was saved in place of the configurations, with the connections of that list.
  saved-Agrees :
      (cs : List WsConnection) (m : Manager K C)
      → m.file ≡ some (C.encode cs)
      → ((j : Bytes) → is_some (lookup j m.connections) ≡ is_some (find_connection j cs))
      → DistinctIds cs
      → AllPlain cs
      → Agrees K C ids m
  saved-Agrees cs m e keys distinct plain =
      let (ds, loads, l) = load-save cs plain in
      record {
        configs = ds;
        loads = ap (load_ws_connections C fine) e ∙ loads;
        keys = λ j. keys j ∙ sym (AllAlike-found j cs ds l);
        distinct = AllAlike-distinct cs ds l distinct;
        plain = AllAlike-plain cs ds l plain;
      }

  -- A removal that reads and writes the file.
  pub delete_connection-Agrees :
      (id : Bytes) (m : Manager K C)
      → Agrees K C ids m
      → Agrees K C ids (delete_connection K C fine id m).1
  unfolding delete_connection
  delete_connection-Agrees id m g = elim (Option-cases (lookup id m.connections)) [
    | inl absent ↦ rw (absent, delete_connection) g
    | inr (conn, there) ↦
        let known : is_some (find_connection id g.configs) ≡ true =
          sym (g.keys id) ∙ ap is_some there in
        let (rest, rem) =
          without_connection-Removed id g.configs g.distinct
            (some_of (find_connection id g.configs) known) in
        rw (there, delete_connection)
          (saved-Agrees rest
            (record m {
              connections = erase id m.connections;
              file = (remove_ws_connection C fine id m.file).1;
              stopped = K.stop conn ∷ m.stopped;
            })
            (ap (λ x. x.1) (removal id g.configs rest m.file g.loads rem.runs))
            (λ j.
              ap is_some (lookup-erase j id m.connections)
              ∙ erased (j =? id) (is_some (find_connection j g.configs)) (lookup j m.connections)
                  (g.keys j)
              ∙ sym (rem.found j))
            rem.distinct (AllPlain-without id g.configs rest g.plain rem.runs))
  ]

  -- The manager behind the write of the file.
  started-Agrees :
      (undo : Io) (c : WsConnection) (m : Manager K C)
      → lookup c.id m.connections ≡ none
      → IsPlain c
      → (g : Agrees K C ids m)
      → Agrees K C ids
          (started K C undo c (record m { file = some (C.encode (g.configs ++ (c ∷ []))) })).1
  started-Agrees undo c m fresh plain g =
      let (conn, made, _) = create_connection_locked_made K C ids c plain.mode in
      let unknown =
        none_of (find_connection c.id g.configs) (sym (g.keys c.id) ∙ ap is_some fresh) in
      rw (made, started)
        (saved-Agrees (g.configs ++ (c ∷ []))
          (record m {
            file = some (C.encode (g.configs ++ (c ∷ [])));
            connections = insert c.id (K.start conn) m.connections;
          })
          refl
          (λ j.
            ap is_some (lookup-insert j c.id (K.start conn) m.connections)
            ∙ one_more j c.id (K.start conn) (is_some (find_connection j g.configs))
                (lookup j m.connections) (g.keys j)
            ∙ sym (find_connection-append j g.configs c))
          (DistinctIds-append g.configs c g.distinct unknown)
          (AllPlain-append g.configs c g.plain plain))

  subst_added :
      (undo : Io) (c : WsConnection) (m : Manager K C) (r : Outcome Config.Err (Unit {0}) × File)
      {f : File}
      → (r ≡ (done tt, f)) ⊎ ((e : Config.Err) × (r ≡ (failed e, m.file)))
      → Agrees K C ids m
      → Agrees K C ids (started K C undo c (record m { file = f })).1
      → Agrees K C ids (added K C undo r.0 c (record m { file = r.1 })).1
  subst_added undo c m r (inl e) kept go =
      subst (λ o. Agrees K C ids (added K C undo (o.0) c (record m { file = o.1 })).1) (sym e) go
  subst_added undo c m r (inr (x, e)) kept go =
      subst (λ o. Agrees K C ids (added K C undo (o.0) c (record m { file = o.1 })).1) (sym e) kept

  branches :
      (closed known : Bool) (m : Manager K C) (go : Outcome Err K.Status × Manager K C)
      → Agrees K C ids m
      → (known ≡ true → Agrees K C ids go.1)
      → Agrees K C ids
          (if closed
            then (failed manager_closed, m)
            else if known
            then go
            else (failed invalid_mode, m)).1
  branches true known m go kept h = kept
  branches false true m go kept h = h refl
  branches false false m go kept h = kept

  pub create_connection-Agrees :
      (io undo : Io) (id : Bytes) (now : ℤ) (req : CreateConnectionRequest) (m : Manager K C)
      → IsWhole io.write
      → IsAscii id
      → pos 0 ≤ℤ now
      → now <ℤ pos 253402300800000000000
      → lookup id m.connections ≡ none
      → Agrees K C ids m
      → Agrees K C ids (create_connection K C io undo id now req m).1
  unfolding create_connection connection_of
  create_connection-Agrees io undo id now req m whole ascii since until fresh g =
      let c = connection_of id now req in
      branches m.closed (is_mode req.mode) m _ g (λ mode.
        subst_added undo c m _ (addition io.readable io.write c g.configs m.file whole g.loads) g (
          started-Agrees undo c m fresh
            (record { mode = mode; ascii = ascii; since = since; until = until }) g))
