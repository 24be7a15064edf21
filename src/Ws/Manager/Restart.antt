-- ===== src/Ws/Manager/Restart.antt =====
-- A restart of the manager (internal/ws/manager.go): the persisted connections come back.
use ts_store.Prelude.{◌≡◌, sym, ◌∙◌, none, List}
use ts_store.Prelude.Int.{ℤ}
use ts_store.Prelude.Equality.{Bytes, bytes_eq}
use ts_store.Prelude.Dict.{lookup}
use ts_store.Prelude.Outcome.{done}
use ts_store.Prelude.Int.{pos, ◌≤ℤ◌, ◌<ℤ◌}
use ts_store.Ws.Config.{Io, WsConnection, Codec, File, load_ws_connections}
use ts_store.Ws.Config.Lists.{is_some, DistinctIds}
use ts_store.Ws.Manager.{
  Connections, Manager, new_manager, load_and_start, create_connection, delete_connection,
  CreateConnectionRequest,
}
use ts_store.Ws.Manager.Agreement.{
  ReadsBack, KeepsIds, IsAscii, fine, AllPlain, Agrees, load_and_start-Agrees, load_and_start-keys,
}
use ts_store.Ws.Manager.Steps.{IsWhole, create_connection-Agrees, delete_connection-Agrees}

module _ (K : Connections) (C : Codec) where
  -- The manager that a file gives at the start.
  abbrev pub start_from : File → Manager K C
  start_from f = (load_and_start K C fine (new_manager K C f)).1

  -- Requests in any order: a connection under a new ID, where no write breaks off (the file may be unreadable, and
  -- the write may fail before the file is opened), and a removal, where the file is read and written.
  pub data Requests (m : Manager K C) : Manager K C → Type 0 where
    here : Requests m m
    adding :
        {n : Manager K C} (io undo : Io) (id : Bytes) (now : ℤ) (req : CreateConnectionRequest)
        → Requests m n
        → IsWhole io.write
        → IsAscii id
        → pos 0 ≤ℤ now
        → now <ℤ pos 253402300800000000000
        → lookup id n.connections ≡ none
        → Requests m (create_connection K C io undo id now req n).1
    removing :
        {n : Manager K C} (id : Bytes)
        → Requests m n
        → Requests m (delete_connection K C fine id n).1

  module _ (ids : KeepsIds K) (back : ReadsBack C) where
    Requests-Agrees : {m n : Manager K C} → Requests m n → Agrees K C ids m → Agrees K C ids n
    Requests-Agrees here g = g
    Requests-Agrees (adding {n} io undo id now req r whole ascii since until fresh) g =
        create_connection-Agrees K C ids back io undo id now req n whole ascii since until fresh
          (Requests-Agrees r g)
    Requests-Agrees (removing {n} id r) g =
        delete_connection-Agrees K C ids back id n (Requests-Agrees r g)

    -- A manager that was started from a file of configurations with distinct ASCII IDs, known modes and times of creation
    -- that JSON can write, and then served any requests, runs just the connections, by their IDs, that a manager
    -- started anew from its file runs: a restart loses none and brings none back. The requests are additions
    -- under a new ASCII ID in which no write breaks off (the file may be unreadable, or the write may fail before the
    -- file is opened), and removals that read and write the file. Such configurations are read back from their
    -- JSON form in their order with the ID, the mode and the time of creation that they had, and a connection has the ID of
    -- its configuration.
    pub start_from-Requests :
        (f : File) (cs : List WsConnection) (m : Manager K C) (id : Bytes)
        → load_ws_connections C fine f ≡ done cs
        → DistinctIds cs
        → AllPlain cs
        → Requests (start_from f) m
        → is_some (lookup id (start_from m.file).connections) ≡ is_some (lookup id m.connections)
    start_from-Requests f cs m id e d a r =
        let g = Requests-Agrees r (load_and_start-Agrees K C ids f cs e d a).1 in
        load_and_start-keys K C ids m.file g.configs id g.loads g.plain ∙ sym (g.keys id)
