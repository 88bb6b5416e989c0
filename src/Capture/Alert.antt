-- ===== src/Capture/Alert.antt =====
-- pkg/falco: alert.go and bridge.go, a Falco alert as an event. The body's JSON and the numbers in
-- it are parameters.
use sentinel5g.Prelude.{
  ℕ, ◌==◌, Bool, false, List, [], ◌∷◌, Option, none, some, Text, codes, text_discrete,
  if◌then◌else◌, ite,
}
use sentinel5g.Prelude.Map.{Map, find}
use sentinel5g.Events.{Protocol, gtpu, sip, unknown, NormalizedEvent}

-- A value of output_fields: a string, a float64, or anything else.
pub data Field (N : Type 0) : Type 0 where
  text : Text → Field N
  number : N → Field N
  other : Field N

-- Alert, as far as FromAlert reads it. A zero time is none.
pub record Alert (N : Type 0) : Type 0 where
  pub time : Option ℕ
  pub hostname : Text
  pub output_fields : Map Text (Field N)

-- What is used of strconv.ParseUint(s, 10, 16) and of float64: whether 0 <= n && n <= 65535, and
-- uint16(n).
pub record Ports (N : Type 0) : Type 0 where
  pub parse_uint16 : Text → Option ℕ
  pub in_range : N → Bool
  pub to_uint16 : N → ℕ

unfoldable pub non_empty_text : {N : Type 0} → Option (Field N) → Option Text
non_empty_text (some (text [])) = none
non_empty_text (some (text (c ∷ cs))) = some (c ∷ cs)
non_empty_text _ = none

-- fieldString
unfoldable pub field_string : {N : Type 0} → Map Text (Field N) → List Text → Text
field_string fields [] = []
field_string fields (k ∷ keys) = elim (non_empty_text (find text_discrete k fields)) [
  | some s ↦ s
  | none ↦ field_string fields keys
]

unfoldable pub port_in : {N : Type 0} → Ports N → Option (Field N) → Option ℕ
port_in ports (some (number n)) = if ports.in_range n then some (ports.to_uint16 n) else none
port_in ports (some (text s)) = ports.parse_uint16 s
port_in ports _ = none

-- fieldPort
unfoldable pub field_port : {N : Type 0} → Ports N → Map Text (Field N) → List Text → ℕ
field_port ports fields [] = 0
field_port ports fields (k ∷ keys) = elim (port_in ports (find text_discrete k fields)) [
  | some p ↦ p
  | none ↦ field_port ports fields keys
]

-- protocolForPort
unfoldable pub protocol_for_port : ℕ → Protocol
protocol_for_port port = if port == 2152 then gtpu else if port == 5060 then sip else unknown

unfoldable pub observed_at_or : ℕ → Option ℕ → ℕ
observed_at_or now none = now
observed_at_or now (some t) = t

-- FromAlert, at a time and with the identifier that uuid.NewString gives.
unfoldable pub from_alert : {N : Type 0} → Ports N → Text → ℕ → Text → Alert N → NormalizedEvent
from_alert ports node_name now event_id alert =
    let fields = alert.output_fields in
    let dest_port = field_port ports fields (codes "fd.dport" ∷ codes "fd.lport" ∷ []) in
    record {
      event_id = event_id;
      observed_at = observed_at_or now alert.time;
      namespace = field_string fields (codes "k8s.ns.name" ∷ []);
      pod_name = field_string fields (codes "k8s.pod.name" ∷ []);
      node_name = ite (text_discrete alert.hostname []) node_name alert.hostname;
      source_ip = field_string fields (codes "fd.sip" ∷ codes "fd.rip" ∷ []);
      dest_ip = field_string fields (codes "fd.dip" ∷ codes "fd.lip" ∷ []);
      dest_port = dest_port;
      protocol = protocol_for_port dest_port;
      payload_size = 0;
      rate_per_second = 0;
      malformed = false;
      vlan_id = 0;
      teid = 0;
      tunnel_rate_per_second = 0;
    }

pub data Reply : Type 0 where
  ok unauthorized bad_request internal_server_error : Reply

-- An HTTP request: its X-Sentinel5g-Shared-Secret header, empty where it is missing, and its body.
pub record Request : Type 0 where
  pub secret : Text
  pub body : Text

module _ {N : Type 0} (ports : Ports N) (decode : Text → Option (Alert N))
    (shared_secret node_name : Text) (now : ℕ) (event_id : Text) (accepts : Bool) where
  -- handle past its guard: the event that is handed to the bus, if any, and the reply.
  unfoldable pub serve : Text → Option NormalizedEvent × Reply
  serve body = elim (decode body) [
    | none ↦ (none, bad_request)
    | some alert ↦ (
      some (from_alert ports node_name now event_id alert),
      if accepts then ok else internal_server_error,
    )
  ]

  -- handle. The bus accepts the event or not.
  unfoldable pub handle_request : Request → Option NormalizedEvent × Reply
  handle_request r =
      ite (text_discrete shared_secret []) (serve r.body)
        (ite (text_discrete r.secret shared_secret) (serve r.body) (none, unauthorized))
