-- ===== src/Websocket/Gateway.antt =====
-- websocket/events.gateway.ts: the sockets, their rooms, and what is sent to them. Socket.io is the
-- list of the sockets that are connected; `to(room).emit` reaches those that have joined the room.
use guard_me.Prelude.{
  ℕ, Bool, not, Option, none, some, List, [], ◌∷◌, String, Result, ok, err, any, filter, map,
  str_eq, if◌then◌else◌,
}
use Prim.Native.String.{◌++◌ as str_append}
use guard_me.Siem.{SiemEventType, SiemEventSeverity}
use guard_me.Siem.Service.{
  SecurityEvent, TrafficLog, Emitted, siem_security_event, security_event_created, siem_traffic_log,
  traffic_log_created,
}
use guard_me.Sessions.{Identity}
use guard_me.Auth.{SessionEventPayload}
use guard_me.Notifications.{
  ThreatNotificationPayload, ThreatNotificationEmitPayload, notify_from_security_event,
}
use guard_me.Health.{SystemStatusPayload}

pub record SecurityEventPayload : Type 0 where
  pub id : String
  pub type : SiemEventType
  pub severity : SiemEventSeverity
  pub message : String
  pub created_at : ℕ

-- utils/payload-mapper.util.ts
unfoldable pub to_security_event_payload : SecurityEvent → SecurityEventPayload
to_security_event_payload row = record {
  id = row.id;
  type = row.type;
  severity = row.severity;
  message = row.message;
  created_at = row.created_at;
}

-- What a client is sent; the payload of a row of the traffic log has all its fields.
pub data ClientEvent : Type 0 where
  traffic_log : TrafficLog → ClientEvent
  security_event : SecurityEventPayload → ClientEvent
  session_event : SessionEventPayload → ClientEvent
  threat_notification : ThreatNotificationPayload → ClientEvent
  system_status : SystemStatusPayload → ClientEvent

-- AuthenticatedSocket
pub record Socket : Type 0 where
  pub id : String
  pub user : Option Identity
  pub rooms : List String

-- `ready` says that the server is there.
pub record GatewayState : Type 0 where
  pub ready : Bool
  pub sockets : List Socket

pub record Delivery : Type 0 where
  pub socket : Socket
  pub event : ClientEvent

-- What the gateway hears of: sockets, with the user that `authenticateSocket` finds and the status
-- of the system if there is one; the events of the program; and the timer.
pub data Inbound : Type 0 where
  connection :
      (socket_id : String)
      → (user : Result Identity) → (status : Option SystemStatusPayload) → Inbound
  disconnection : (socket_id : String) → Inbound
  on_traffic_log : TrafficLog → Inbound
  on_security_event : SecurityEvent → Inbound
  on_session_event : SessionEventPayload → Inbound
  on_threat_notification : ThreatNotificationEmitPayload → Inbound
  on_interval : SystemStatusPayload → Inbound

unfoldable pub user_room : String → String
user_room user_id = str_append "user:" user_id

unfoldable pub authenticated_room : String
authenticated_room = "authenticated"

abbrev pub has_joined : String → Socket → Bool
has_joined room s = any (str_eq room) s.rooms

unfoldable pub emit_to : String → ClientEvent → GatewayState → List Delivery
emit_to room event g =
    if g.ready
    then map (λ s. record { socket = s; event = event }) (filter (has_joined room) g.sockets)
    else []

abbrev pub connected : String → Identity → Socket
connected socket_id user = record {
  id = socket_id;
  user = some user;
  rooms = user_room user.user_id ∷ authenticated_room ∷ [];
}

-- A socket that is refused is disconnected, and so is one for which there is no status.
unfoldable pub handle_connection :
    String
    → Result Identity
    → Option SystemStatusPayload
    → GatewayState
    → List Delivery × GatewayState
handle_connection socket_id (err _) status g = ([], g)
handle_connection socket_id (ok user) none g = ([], g)
handle_connection socket_id (ok user) (some status) g = (
  record { socket = connected socket_id user; event = system_status status } ∷ [],
  record g { sockets = connected socket_id user ∷ g.sockets },
)

unfoldable pub handle_disconnect : String → GatewayState → GatewayState
handle_disconnect socket_id g = record g {
  sockets = filter (λ s. not (str_eq s.id socket_id)) g.sockets;
}

unfoldable pub handle_traffic_log : TrafficLog → GatewayState → List Delivery
unfolding emit_to
handle_traffic_log row g = emit_to (user_room row.input.user_id) (traffic_log row) g

unfoldable pub handle_security_event : SecurityEvent → GatewayState → List Delivery
unfolding emit_to to_security_event_payload
handle_security_event row g = elim row.user_id [
  | none ↦ []
  | some user_id ↦
      if str_eq user_id ""
      then []
      else emit_to (user_room user_id) (security_event (to_security_event_payload row)) g
]

unfoldable pub handle_session_event : SessionEventPayload → GatewayState → List Delivery
unfolding emit_to
handle_session_event payload g = emit_to (user_room payload.user_id) (session_event payload) g

unfoldable pub handle_threat_notification :
    ThreatNotificationEmitPayload → GatewayState → List Delivery
unfolding emit_to
handle_threat_notification payload g =
    emit_to (user_room payload.user_id) (threat_notification payload.notification) g

unfoldable pub broadcast_system_status : SystemStatusPayload → GatewayState → List Delivery
unfolding emit_to
broadcast_system_status status g = emit_to authenticated_room (system_status status) g

unfoldable pub handle : Inbound → GatewayState → List Delivery × GatewayState
handle (connection socket_id user status) g = handle_connection socket_id user status g
handle (disconnection socket_id) g = ([], handle_disconnect socket_id g)
handle (on_traffic_log row) g = (handle_traffic_log row g, g)
handle (on_security_event row) g = (handle_security_event row g, g)
handle (on_session_event payload) g = (handle_session_event payload g, g)
handle (on_threat_notification payload) g = (handle_threat_notification payload g, g)
handle (on_interval status) g = (broadcast_system_status status g, g)

-- What the listeners make of an event that the siem service emits; that of a new traffic log is
-- heard by ueba alone.
unfoldable pub listeners : Emitted → List Inbound
listeners (siem_security_event row) = on_security_event row ∷ []
listeners (siem_traffic_log row) = on_traffic_log row ∷ []
listeners (traffic_log_created row) = []
listeners (security_event_created row) = elim (notify_from_security_event row) [
  | none ↦ []
  | some payload ↦ on_threat_notification payload ∷ []
]
