-- ===== src/Ws/Manager.antt =====
-- internal/ws/manager.go: the connections of a store that run, and their persisted configurations.
pub mod Agreement
pub mod Steps
pub mod Restart
mod Tests
use ts_store.Prelude.{
  ℕ, Bool, true, false, not, ◌||◌, Option, none, some, List, [], ◌∷◌, map, if◌then◌else◌,
}
use ts_store.Prelude.Int.{ℤ}
use ts_store.Prelude.Equality.{Bytes, ◌=?◌, bytes_eq}
use ts_store.Prelude.Dict.{Dict, lookup, insert, erase}
use ts_store.Prelude.Outcome.{Outcome, done, failed}
use ts_store.Strings.{is_empty}
use ts_store.Ws.Config
use ts_store.Ws.Config.{
  WsConnection, AlertRuleConfig, Codec, File, Io, load_ws_connections, add_ws_connection,
  remove_ws_connection,
}

pub data Err : Type 0 where
  connection_not_found invalid_mode manager_closed : Err
  in_config : Config.Err → Err

abbrev pub push : Bytes
push = 112 ∷ 117 ∷ 115 ∷ 104 ∷ []

abbrev pub pull : Bytes
pull = 112 ∷ 117 ∷ 108 ∷ 108 ∷ []

abbrev pub full : Bytes
full = 102 ∷ 117 ∷ 108 ∷ 108 ∷ []

pub record CreateConnectionRequest : Type 0 where
  pub mode : Bytes
  pub url : Bytes
  pub from : ℤ
  pub format : Bytes
  pub headers : Dict Bytes Bytes
  pub filter : Bytes
  pub filter_ignore_case : Bool
  pub agg_window : Bytes
  pub agg_fields : Bytes
  pub agg_default : Bytes

-- What `CreateConnection` makes of a request, with the first eight characters of a new UUID as `id`.
unfoldable pub connection_of : Bytes → ℤ → CreateConnectionRequest → WsConnection
connection_of id now r = record {
  id = id;
  mode = r.mode;
  url = r.url;
  from = r.from;
  format = if is_empty r.format then full else r.format;
  headers = r.headers;
  filter = r.filter;
  filter_ignore_case = r.filter_ignore_case;
  agg_window = r.agg_window;
  agg_fields = r.agg_fields;
  agg_default = r.agg_default;
  rules = [];
  created_at = now;
}

abbrev pub is_mode : Bytes → Bool
is_mode m = m =? push || m =? pull

-- `Connection`: what `NewPusher` and `NewPuller` make, and what they report.
pub record Connections : Type 1 where
  pub Conn : Type 0
  pub Status : Type 0
  pub make_pusher : WsConnection → Conn
  pub make_puller : WsConnection → Conn
  pub id : Conn → Bytes
  pub start : Conn → Conn
  pub stop : Conn → Conn
  pub status : Conn → Status

module _ (K : Connections) (C : Codec) where
  -- The manager, the file that its store keeps the configurations in, and the connections that were stopped.
  pub record Manager : Type 0 where
    pub connections : Dict Bytes K.Conn
    pub closed : Bool
    pub file : File
    pub stopped : List K.Conn

  abbrev pub new_manager : File → Manager
  new_manager f = record { connections = []; closed = false; file = f; stopped = [] }

  unfoldable pub create_connection_locked : WsConnection → Outcome Err K.Conn
  create_connection_locked c =
      if c.mode =? push
      then done (K.make_pusher c)
      else if c.mode =? pull
      then done (K.make_puller c)
      else failed invalid_mode

  -- The loop of `LoadAndStart`; a configuration with another mode is passed over.
  unfoldable pub start_all : List WsConnection → Dict Bytes K.Conn → Dict Bytes K.Conn
  start_all [] m = m
  start_all (c ∷ cs) m = elim (create_connection_locked c) [
    | failed e ↦ start_all cs m
    | done conn ↦ start_all cs (insert (K.id conn) (K.start conn) m)
  ]

  unfoldable pub load_and_start : Io → Manager → Outcome Err (Unit {0}) × Manager
  load_and_start io m =
      if m.closed then (failed manager_closed, m) else elim (load_ws_connections C io m.file) [
        | failed e ↦ (failed (in_config e), m)
        | done cs ↦ (done tt, record m { connections = start_all cs m.connections })
      ]

  -- The part of `CreateConnection` behind the write of the file.
  abbrev pub started : Io → WsConnection → Manager → Outcome Err K.Status × Manager
  started undo c m = elim (create_connection_locked c) [
    | failed e ↦ (failed e, record m { file = (remove_ws_connection C undo c.id m.file).1 })
    | done conn ↦
        (done (K.status conn), record m { connections = insert c.id (K.start conn) m.connections })
  ]

  abbrev pub added :
      Io → Outcome Config.Err (Unit {0}) → WsConnection → Manager → Outcome Err K.Status × Manager
  added undo (failed e) c m = (failed (in_config e), m)
  added undo (done _) c m = started undo c m

  -- `undo` is for the removal of a configuration that makes no connection.
  unfoldable pub create_connection :
      Io → Io → Bytes → ℤ → CreateConnectionRequest → Manager → Outcome Err K.Status × Manager
  create_connection io undo id now r m =
      let c = connection_of id now r in
      let saved = add_ws_connection C io c m.file in
      if m.closed
      then (failed manager_closed, m)
      else if is_mode r.mode
      then added undo saved.0 c (record m { file = saved.1 })
      else (failed invalid_mode, m)

  unfoldable pub get_connection : Bytes → Manager → Outcome Err K.Status
  get_connection id m = elim (lookup id m.connections) [
    | none ↦ failed connection_not_found
    | some conn ↦ done (K.status conn)
  ]

  -- The order is that of the map.
  unfoldable pub list_connections : Manager → List K.Status
  list_connections m = map (λ e. K.status e.1) m.connections

  abbrev pub config_error : Outcome Config.Err (Unit {0}) → Outcome Err (Unit {0})
  config_error (done _) = done tt
  config_error (failed e) = failed (in_config e)

  unfoldable pub delete_connection : Io → Bytes → Manager → Outcome Err (Unit {0}) × Manager
  delete_connection io id m = elim (lookup id m.connections) [
    | none ↦ (failed connection_not_found, m)
    | some conn ↦
        let removed = remove_ws_connection C io id m.file in
        (
          config_error removed.0,
          record m {
            connections = erase id m.connections;
            file = removed.1;
            stopped = K.stop conn ∷ m.stopped;
          },
        )
  ]

  abbrev pub stop_all : Dict Bytes K.Conn → List K.Conn → List K.Conn
  stop_all [] stopped = stopped
  stop_all ((id, conn) ∷ m) stopped = stop_all m (K.stop conn ∷ stopped)

  unfoldable pub stop : Manager → Manager
  stop m =
      if m.closed
      then m
      else record m { closed = true; connections = []; stopped = stop_all m.connections m.stopped }
