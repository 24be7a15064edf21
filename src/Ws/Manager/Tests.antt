-- ===== src/Ws/Manager/Tests.antt =====
-- A manager with one connection, and a form of the configurations that can be read back, on which the theorem
-- on internal/ws/manager.go holds.
mod Forms
use ts_store.Prelude.{
  arith, ℕ, zero, suc, ◌≡◌, refl, ap, ◌∙◌, Bool, true, false, Option, none, some, List, [], ◌∷◌,
  length,
}
use ts_store.Prelude.Int.{ℤ, pos, negsuc}
use ts_store.Prelude.Equality.{Bytes, bytes_eq}
use ts_store.Prelude.Dict.{Dict, lookup}
use ts_store.Ws.Config
use ts_store.Ws.Config.{WsConnection, AlertRuleConfig, File, find_connection}
use ts_store.Ws.Config.Lists.{is_some}
use ts_store.Ws.Manager.{
  Connections, Manager, create_connection, CreateConnectionRequest, push, load_and_start, start_all,
}
use ts_store.Ws.Manager.Agreement.{ReadsBack, KeepsIds, AllAlike, fine}
use ts_store.Ws.Manager.Restart.{start_from, here, adding, start_from-Requests}
use ts_store.Ws.Manager.Tests.Forms.{Form, number, both, through, many, bytes, flag, int}

abbrev headers : Form (Dict Bytes Bytes)
headers = many (both bytes bytes)

abbrev of_rule : AlertRuleConfig → ((Bytes × Bytes) × (Bytes × Bytes)) × Dict Bytes Bytes
of_rule r = (((r.name, r.condition), (r.webhook, r.cooldown)), r.webhook_headers)

abbrev to_rule : ((Bytes × Bytes) × (Bytes × Bytes)) × Dict Bytes Bytes → AlertRuleConfig
to_rule (((n, c), (w, d)), h) = record {
  name = n;
  condition = c;
  webhook = w;
  webhook_headers = h;
  cooldown = d;
}

abbrev rule : Form AlertRuleConfig
rule =
    through (both (both (both bytes bytes) (both bytes bytes)) headers) of_rule to_rule (λ r. refl)

abbrev Texts : Type 0
Texts = (Bytes × Bytes) × (Bytes × Bytes)

abbrev Rest : Type 0
Rest = ((ℤ × ℤ) × (Bool × Dict Bytes Bytes)) × List AlertRuleConfig

abbrev of_conn : WsConnection → (Texts × Texts) × Rest
of_conn c = (
  (((c.id, c.mode), (c.url, c.format)), ((c.filter, c.agg_window), (c.agg_fields, c.agg_default))),
  (((c.from, c.created_at), (c.filter_ignore_case, c.headers)), c.rules),
)

abbrev to_conn : (Texts × Texts) × Rest → WsConnection
to_conn ((((i, m), (u, f)), ((s, w), (a, d))), (((t, n), (b, h)), r)) = record {
  id = i;
  mode = m;
  url = u;
  from = t;
  format = f;
  headers = h;
  filter = s;
  filter_ignore_case = b;
  agg_window = w;
  agg_fields = a;
  agg_default = d;
  rules = r;
  created_at = n;
}

abbrev texts : Form Texts
texts = both (both bytes bytes) (both bytes bytes)

abbrev rest_form : Form Rest
rest_form = both (both (both int int) (both flag headers)) (many rule)

abbrev connections : Form (List WsConnection)
connections = many (through (both (both texts texts) rest_form) of_conn to_conn (λ c. refl))

abbrev first_of : Option (List WsConnection × List ℕ) → Option (List WsConnection)
first_of none = none
first_of (some (cs, rest)) = some cs

abbrev plain_codec : Config.Codec
plain_codec = record {
  encode = λ cs. connections.write cs [];
  decode = λ bs. first_of (connections.read bs);
}

plain_codec-ReadsBack : ReadsBack plain_codec
plain_codec-ReadsBack cs p = (cs, ap first_of (connections.law cs []), alike cs)
  where
    alike : (cs : List WsConnection) → AllAlike cs cs
    alike [] = tt
    alike (c ∷ cs) = ((refl, refl, refl), alike cs)

-- A connection is its configuration.
abbrev as_configs : Connections
as_configs = record {
  Conn = WsConnection;
  Status = WsConnection;
  make_pusher = λ c. c;
  make_puller = λ c. c;
  id = λ c. c.id;
  start = λ c. c;
  stop = λ c. c;
  status = λ c. c;
}

as_configs-KeepsIds : KeepsIds as_configs
as_configs-KeepsIds = record { pusher = λ c. refl; puller = λ c. refl }

abbrev empty_file : File
empty_file = none

abbrev push_request : CreateConnectionRequest
push_request = record {
  mode = push;
  url = [];
  from = pos 0;
  format = [];
  headers = [];
  filter = [];
  filter_ignore_case = false;
  agg_window = [];
  agg_fields = [];
  agg_default = [];
}

abbrev first_manager : Manager as_configs plain_codec
first_manager = start_from as_configs plain_codec empty_file

abbrev one_connection : Manager as_configs plain_codec
one_connection =
    (create_connection as_configs plain_codec fine fine (49 ∷ []) (pos 7) push_request
      first_manager).1

first_fresh : lookup (49 ∷ []) first_manager.connections ≡ none
unfolding load_and_start Config.load_ws_connections lookup start_all
first_fresh = refl

start_from-Requests_example :
    is_some (lookup (49 ∷ []) (start_from as_configs plain_codec one_connection.file).connections)
    ≡ is_some (lookup (49 ∷ []) one_connection.connections)
unfolding Config.load_ws_connections
start_from-Requests_example =
    start_from-Requests as_configs plain_codec as_configs-KeepsIds plain_codec-ReadsBack empty_file
      [] one_connection (49 ∷ []) refl tt tt
      (adding fine fine (49 ∷ []) (pos 7) push_request here tt (omega arith, tt) (omega arith)
        (omega arith) first_fresh)
