-- ===== src/Siem/Service.antt =====
-- siem/siem.service.ts: writing events, and telling the rest of the program. Whether the database
-- takes a row, and the row's identifier and time, are arguments.
use guard_me.Prelude.{
  ℕ, Bool, Option, none, some, List, [], ◌∷◌, ◌++◌, String, str_eq, if◌then◌else◌,
}
use guard_me.Siem.{
  SiemEventType, SiemEventSeverity, string, Metadata, SecurityEventInput, resolve_event_severity,
  TrafficLogInput,
}

pub record SecurityEvent : Type 0 where
  pub id : String
  pub user_id : Option String
  pub type : SiemEventType
  pub severity : SiemEventSeverity
  pub message : String
  pub metadata : Metadata
  pub created_at : ℕ

-- A row of the traffic log: what was given, with the identifier and the time.
pub record TrafficLog : Type 0 where
  pub id : String
  pub input : TrafficLogInput
  pub timestamp : ℕ

-- What `emitEvent` sends, by the name of the event.
pub data Emitted : Type 0 where
  siem_security_event security_event_created : SecurityEvent → Emitted
  siem_traffic_log traffic_log_created : TrafficLog → Emitted

pub record SiemState : Type 0 where
  pub events : List SecurityEvent
  pub traffic : List TrafficLog
  pub emitted : List Emitted

-- `metadata?.userId` if it is a string; the first entry of a key counts.
unfoldable pub read_metadata_user_id : Metadata → Option String
read_metadata_user_id [] = none
read_metadata_user_id ((k, string v) ∷ m) =
    if str_eq k "userId" then some v else read_metadata_user_id m
read_metadata_user_id ((k, _) ∷ m) = if str_eq k "userId" then none else read_metadata_user_id m

-- `input.userId ?? this.readMetadataUserId(input.metadata)`
unfoldable pub event_user : SecurityEventInput → Option String
event_user input = elim input.user_id [
  | some u ↦ some u
  | none ↦ read_metadata_user_id input.metadata
]

unfoldable pub security_event_row : String → ℕ → SecurityEventInput → SecurityEvent
unfolding event_user
security_event_row new_id now input = record {
  id = new_id;
  user_id = event_user input;
  type = input.type;
  severity = resolve_event_severity input.type input.severity;
  message = input.message;
  metadata = input.metadata;
  created_at = now;
}

-- A row that the database refuses is dropped with a warning, and nothing is emitted.
unfoldable pub log_security_event : Bool → String → ℕ → SecurityEventInput → SiemState → SiemState
log_security_event stored new_id now input s =
    let row = security_event_row new_id now input in
    if stored
    then record s {
      events = s.events ++ row ∷ [];
      emitted = s.emitted ++ siem_security_event row ∷ security_event_created row ∷ [];
    }
    else s

-- `input.timestamp ?? new Date()`
unfoldable pub log_traffic : Bool → String → ℕ → TrafficLogInput → SiemState → SiemState
log_traffic stored new_id now input s =
    let row : TrafficLog = record {
      id = new_id;
      input = input;
      timestamp = elim input.timestamp [ none ↦ now | some t ↦ t ];
    } in
    if stored
    then record s {
      traffic = s.traffic ++ row ∷ [];
      emitted = s.emitted ++ siem_traffic_log row ∷ traffic_log_created row ∷ [];
    }
    else s
