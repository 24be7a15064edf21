-- ===== src/Ws/Config.antt =====
-- pkg/store/ws_config.go: the configurations of the outbound connections, kept in one file.
pub mod Lists
use ts_store.Prelude.{ℕ, Bool, true, false, Option, none, some, List, [], ◌∷◌, ◌++◌, if◌then◌else◌}
use ts_store.Prelude.Int.{ℤ}
use ts_store.Prelude.Equality.{Bytes, ◌=?◌, bytes_eq}
use ts_store.Prelude.Dict.{Dict}
use ts_store.Prelude.Outcome.{Outcome, done, failed, ◌>>=◌}
use ts_store.WriteFile.{Write, written, unreached, torn, write_file}

-- `AlertRuleConfig`
pub record AlertRuleConfig : Type 0 where
  pub name : Bytes
  pub condition : Bytes
  pub webhook : Bytes
  pub webhook_headers : Dict Bytes Bytes
  pub cooldown : Bytes

-- `WSConnection`; `created_at` in nanoseconds.
pub record WsConnection : Type 0 where
  pub id : Bytes
  pub mode : Bytes
  pub url : Bytes
  pub from : ℤ
  pub format : Bytes
  pub headers : Dict Bytes Bytes
  pub filter : Bytes
  pub filter_ignore_case : Bool
  pub agg_window : Bytes
  pub agg_fields : Bytes
  pub agg_default : Bytes
  pub rules : List AlertRuleConfig
  pub created_at : ℤ

pub data Err : Type 0 where
  object_not_found file_failed invalid_file : Err

-- The JSON form of `WSConnectionsConfig`.
pub record Codec : Type 0 where
  pub encode : List WsConnection → Bytes
  pub decode : Bytes → Option (List WsConnection)

-- The content of the file `ws_connections.json`, if it is there.
abbrev pub File : Type 0
File = Option Bytes

-- What the operating system does in one operation: whether a file that is there can be read, and what becomes of a
-- write.
pub record Io : Type 0 where
  pub readable : Bool
  pub write : Write

-- The first connection with the ID.
unfoldable pub find_connection : Bytes → List WsConnection → Option WsConnection
find_connection id [] = none
find_connection id (c ∷ cs) =
    let rest = find_connection id cs in if c.id =? id then some c else rest

-- The list without the first connection with the ID, if there is one.
unfoldable pub without_connection : Bytes → List WsConnection → Option (List WsConnection)
without_connection id [] = none
without_connection id (c ∷ cs) =
    let rest : Option (List WsConnection) = elim (without_connection id cs) [
      | none ↦ none
      | some l ↦ some (c ∷ l)
    ] in
    if c.id =? id then some cs else rest

module _ (C : Codec) where
  unfoldable pub load_ws_connections : Io → File → Outcome Err (List WsConnection)
  load_ws_connections io f = elim f [
    | none ↦ done []
    | some bs ↦ elim io.readable [
      | false ↦ failed file_failed
      | true ↦ elim (C.decode bs) [ none ↦ failed invalid_file | some cs ↦ done cs ]
    ]
  ]

  abbrev pub write_error : Write → Outcome Err (Unit {0})
  write_error written = done tt
  write_error unreached = failed file_failed
  write_error (torn n) = failed file_failed

  unfoldable pub save_ws_connections : Io → List WsConnection → File → Outcome Err (Unit {0}) × File
  save_ws_connections io cs f = (write_error io.write, write_file io.write (C.encode cs) f)

  unfoldable pub add_ws_connection : Io → WsConnection → File → Outcome Err (Unit {0}) × File
  add_ws_connection io conn f = elim (load_ws_connections io f) [
    | failed e ↦ (failed e, f)
    | done cs ↦ save_ws_connections io (cs ++ (conn ∷ [])) f
  ]

  unfoldable pub remove_ws_connection : Io → Bytes → File → Outcome Err (Unit {0}) × File
  remove_ws_connection io id f = elim (load_ws_connections io f) [
    | failed e ↦ (failed e, f)
    | done cs ↦ elim (without_connection id cs) [
      | none ↦ (failed object_not_found, f)
      | some rest ↦ save_ws_connections io rest f
    ]
  ]

  unfoldable pub get_ws_connection : Io → Bytes → File → Outcome Err WsConnection
  get_ws_connection io id f = do
    cs ← load_ws_connections io f
    elim (find_connection id cs) [ none ↦ failed object_not_found | some c ↦ done c ]
