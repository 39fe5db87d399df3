-- ===== src/Siem/Queries.antt =====
-- The pages of traffic logs and security events: the queries of siem/siem.service.ts, and
-- siem/utils/search-term.util.ts. A date of a query is the moment that `new Date` reads, and a text
-- filter of Prisma, without regard to case, is a parameter.
pub mod Pages
use guard_me.Prelude.{
  ℕ, ◌+◌, ◌-◌, ◌*◌, Bool, true, false, not, ◌&&◌, ◌||◌, Option, none, some, List, [], ◌∷◌, String,
  length, take, drop, filter, leb, ltb, nat_beq, str_eq, if◌then◌else◌,
}
use guard_me.Text.{Text, text, trim}
use guard_me.Database.{Prisma}
use guard_me.Siem.{
  SiemEventType, SiemEventSeverity, PolicyDecision, ThreatVerdict, allow, warn, block, safe,
  suspicious, malicious, unverified, TrafficLogInput, type_name, severity_name,
}
use guard_me.Siem.Names.{decision_eq, verdict_eq, type_eq, severity_eq}
use guard_me.Siem.Service.{TrafficLog, SecurityEvent}

abbrev pub max_search_length : ℕ
max_search_length = 200

-- [\x00-\x1F\x7F]
abbrev pub is_control : ℕ → Bool
is_control c = ltb c 32 || nat_beq c 127

abbrev non_empty : Text → Option Text
non_empty [] = none
non_empty (c ∷ s) = some (c ∷ s)

unfoldable pub sanitize_search_term : Option Text → Option Text
sanitize_search_term none = none
sanitize_search_term (some []) = none
sanitize_search_term (some (c ∷ value)) =
    non_empty (take max_search_length (filter (λ d. not (is_control d)) (trim (c ∷ value))))

-- A filter that is not given holds of every row.
abbrev pub holds : {A : Type 0} → Option A → (A → Bool) → Bool
holds none test = true
holds (some a) test = test a

abbrev pub is_within : (from_time to_time : Option ℕ) → ℕ → Bool
is_within from_time to_time t = holds from_time (λ a. leb a t) && holds to_time (λ b. leb t b)

pub record TrafficLogsQuery : Type 0 where
  pub page : Option ℕ
  pub page_size : Option ℕ
  pub threat_verdict : Option ThreatVerdict
  pub policy_decision : Option PolicyDecision
  pub url_search : Option Text
  pub destination_ip : Option Text
  pub from_time : Option ℕ
  pub to_time : Option ℕ

pub record SecurityEventsQuery : Type 0 where
  pub page : Option ℕ
  pub page_size : Option ℕ
  pub type : Option SiemEventType
  pub severity : Option SiemEventSeverity
  pub from_time : Option ℕ
  pub to_time : Option ℕ

pub record Paginated (A : Type 0) : Type 0 where
  pub items : List A
  pub total : ℕ
  pub page : ℕ
  pub page_size : ℕ

abbrev pub or_else : Option ℕ → ℕ → ℕ
or_else none n = n
or_else (some m) n = m

-- The page of the rows that meet a filter, in an order, and how many there are in all. `skip` and
-- `take` of `findMany` cut the rows of this one query; it and `count` see the same table.
unfoldable pub find_page :
    {Row : Type 0} (db : Prisma Row)
    → (Row → Bool)
    → (Row → Row → Bool)
    → (page page_size : Option ℕ) → List Row
    → Paginated Row
find_page db test before page page_size table =
    let number : ℕ = or_else page 1 in
    let size : ℕ = or_else page_size 15 in
    record {
      items = db.find_slice test before ((number - 1) * size) size table;
      total = db.count test table;
      page = number;
      page_size = size;
    }

-- `contains` with `mode: 'insensitive'`.
module _ (contains : Text → Text → Bool) where
  abbrev in_ip : Text → Option Text → Bool
  in_ip term none = false
  in_ip term (some ip) = contains ip term

  unfoldable pub traffic_log_where : String → TrafficLogsQuery → TrafficLog → Bool
  unfolding sanitize_search_term
  traffic_log_where user_id query row =
      str_eq row.input.user_id user_id
      && holds query.threat_verdict (verdict_eq.beq row.input.threat_verdict)
      && holds query.policy_decision (decision_eq.beq row.input.policy_decision)
      && holds (sanitize_search_term query.url_search)
          (λ term. contains (text row.input.url) term || contains row.input.destination_host term)
      && holds (sanitize_search_term query.destination_ip)
          (λ term. in_ip term row.input.destination_ip)
      && is_within query.from_time query.to_time row.timestamp

  unfoldable pub find_traffic_logs_for_user :
      Prisma TrafficLog → String → TrafficLogsQuery → List TrafficLog → Paginated TrafficLog
  unfolding find_page traffic_log_where
  find_traffic_logs_for_user db user_id query table =
      find_page db (traffic_log_where user_id query) (λ r s. ltb s.timestamp r.timestamp) query.page
        query.page_size table

abbrev pub is_user : String → Option String → Bool
is_user user_id none = false
is_user user_id (some u) = str_eq u user_id

unfoldable pub security_event_where : String → SecurityEventsQuery → SecurityEvent → Bool
security_event_where user_id query row =
    is_user user_id row.user_id
    && holds query.type (type_eq.beq row.type)
    && holds query.severity (severity_eq.beq row.severity)
    && is_within query.from_time query.to_time row.created_at

unfoldable pub find_security_events_for_user :
    Prisma SecurityEvent
    → String
    → SecurityEventsQuery
    → List SecurityEvent
    → Paginated SecurityEvent
unfolding find_page security_event_where
find_security_events_for_user db user_id query table =
    find_page db (security_event_where user_id query) (λ r s. ltb s.created_at r.created_at)
      query.page query.page_size table
