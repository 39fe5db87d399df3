-- ===== src/Websocket/Isolation.antt =====
-- Who is sent what: websocket/events.gateway.ts, behind siem.service.ts and the notifications.
use text.Mathlib.TextLemmas.{append_cancel_left, cons-append}
use Prim.Native.Char.{code}
use mathlib.Core.Path.{subst}
use mathlib.Core.Option.{some-injective}
use guard_me.Prelude.{
  ℕ, ◌≡◌, ◌≢◌, refl, sym, ap, ◌∙◌, inl, inr, Bool, true, false, not, Option, none, some, List, [],
  ◌∷◌, String, ok, err, filter, map, In, arith, str_eq, str_eq_iff, or_parts, ◌||◌, Bool-cases,
}
use guard_me.Database.Memory.{of_filter}
use guard_me.Sessions.{Identity}
use guard_me.Websocket.Gateway.{
  Socket, GatewayState, Delivery, Inbound, connection, disconnection, on_traffic_log,
  on_security_event, on_session_event, on_threat_notification, on_interval, ClientEvent,
  traffic_log, security_event, session_event, threat_notification, to_security_event_payload,
  user_room, authenticated_room, has_joined, emit_to, connected, handle, handle_connection,
  handle_disconnect, handle_traffic_log, handle_security_event, handle_session_event,
  handle_threat_notification,
}

-- The socket belongs to the user.
abbrev pub IsOf : String → Socket → Type 0
IsOf user_id s = (u : Identity) × (s.user ≡ some u) × (u.user_id ≡ user_id)

-- A socket is in the room of its own user and in the common one, and in no other.
abbrev pub IsAtHome : Socket → Type 0
IsAtHome s = (u : Identity) × (s ≡ connected s.id u)

abbrev pub AllAtHome : GatewayState → Type 0
AllAtHome g = (s : Socket) → In s g.sockets → IsAtHome s

-- The user that an event is meant for.
abbrev pub addressee : Inbound → Option String
addressee (on_traffic_log row) = some row.input.user_id
addressee (on_security_event row) = row.user_id
addressee (on_session_event payload) = some payload.user_id
addressee (on_threat_notification payload) = some payload.user_id
addressee _ = none

user_room_inj : (a b : String) → user_room a ≡ user_room b → a ≡ b
unfolding user_room
user_room_inj a b h = append_cancel_left "user:" a b h

first_code : String → ℕ
first_code String.[] = 0
first_code (String.◌∷◌ c s) = code c

user_room-ne-authenticated : (a : String) → user_room a ≢ authenticated_room
unfolding user_room authenticated_room first_code
user_room-ne-authenticated a h =
    let e : ◌≡◌ {A = ℕ} 117 97 = ap first_code (sym (cons-append "u" "ser:" a) ∙ h) in omega arith

-- A socket that has joined the room of a user is that user's.
has_joined-IsOf :
    (user_id : String) (s : Socket)
    → IsAtHome s
    → has_joined (user_room user_id) s ≡ true
    → IsOf user_id s
has_joined-IsOf user_id s (u, e) h =
    let joined : has_joined (user_room user_id) (connected s.id u) ≡ true =
      ap (has_joined (user_room user_id)) (sym e) ∙ h in
    let rooms =
      or_parts (str_eq (user_room user_id) (user_room u.user_id))
        (str_eq (user_room user_id) authenticated_room || false) joined in
    elim rooms [
      | inl own ↦ (
        u,
        ap (λ (x : Socket). x.user) e,
        sym (user_room_inj user_id u.user_id ((str_eq_iff _ _).0 own)),
      )
      | inr common ↦ absurd (user_room-ne-authenticated user_id ((str_eq_iff _ _).0 (ground arith)))
    ]

of_map :
    {A B : Type 0} (f : A → B) (xs : List A) (y : B)
    → In y (map f xs)
    → (x : A) × In x xs × (y ≡ f x)
of_map f [] y m = elim m [ ]
of_map f (x ∷ xs) y (inl e) = (x, inl refl, e)
of_map f (x ∷ xs) y (inr m) = let (z, n, e) = of_map f xs y m in (z, inr n, e)

of_emit_to :
    (room : String) (event : ClientEvent) (g : GatewayState) (m : Delivery)
    → In m (emit_to room event g)
    → In m.socket g.sockets × (has_joined room m.socket ≡ true)
unfolding emit_to
of_emit_to room event g m n = elim (Bool-cases g.ready) [
  | inr off ↦ absurd (rw (off) at n)
  | inl on ↦
      let (s, k, e) =
        of_map (λ s. record { socket = s; event = event }) (filter (has_joined room) g.sockets) m
          (rw (on) at n) in
      let (j, i) = of_filter (has_joined room) g.sockets s k in rw (e) (i, j)
]

-- Sockets stay where they belong.
handle-AllAtHome : (i : Inbound) (g : GatewayState) → AllAtHome g → AllAtHome (handle i g).1
unfolding handle handle_connection handle_disconnect
handle-AllAtHome (connection socket_id (err e) status) g h = h
handle-AllAtHome (connection socket_id (ok user) none) g h = h
handle-AllAtHome (connection socket_id (ok user) (some status)) g h = λ s m. elim m [
  | inl e ↦ (user, e ∙ ap (λ (i : String). connected i user) (sym (ap (λ (x : Socket). x.id) e)))
  | inr n ↦ h s n
]
handle-AllAtHome (disconnection socket_id) g h =
    λ s m. h s (of_filter (λ x. not (str_eq x.id socket_id)) g.sockets s m).1
handle-AllAtHome (on_traffic_log row) g h = h
handle-AllAtHome (on_security_event row) g h = h
handle-AllAtHome (on_session_event payload) g h = h
handle-AllAtHome (on_threat_notification payload) g h = h
handle-AllAtHome (on_interval status) g h = h

-- What is emitted to the room of a user reaches that user's sockets.
emit_to-IsOf :
    (user_id : String) (event : ClientEvent) (g : GatewayState) (m : Delivery)
    → AllAtHome g
    → In m (emit_to (user_room user_id) event g)
    → IsOf user_id m.socket
emit_to-IsOf user_id event g m h n =
    let (i, j) = of_emit_to (user_room user_id) event g m n in
    has_joined-IsOf user_id m.socket (h m.socket i) j

emit_to-IsFor :
    (to user_id : String) (event : ClientEvent) (g : GatewayState) (m : Delivery)
    → AllAtHome g
    → to ≡ user_id
    → In m (emit_to (user_room to) event g)
    → IsOf user_id m.socket
emit_to-IsFor to user_id event g m h e n =
    subst (λ x. IsOf x m.socket) e (emit_to-IsOf to event g m h n)

handle-IsOf :
    (i : Inbound) (g : GatewayState) (m : Delivery) (user_id : String)
    → AllAtHome g
    → addressee i ≡ some user_id
    → In m (handle i g).0
    → IsOf user_id m.socket
unfolding handle handle_traffic_log handle_security_event handle_session_event
    handle_threat_notification
handle-IsOf (on_traffic_log row) g m user_id h a n =
    emit_to-IsFor row.input.user_id user_id (traffic_log row) g m h (some-injective _ _ a) n
handle-IsOf (on_security_event row) g m user_id h a n = elim (Bool-cases (str_eq user_id "")) [
  | inl none_there ↦ absurd (rw (a, none_there) at n)
  | inr there ↦
      emit_to-IsOf user_id (security_event (to_security_event_payload row)) g m h
        (rw (a, there) at n)
]
handle-IsOf (on_session_event payload) g m user_id h a n =
    emit_to-IsFor payload.user_id user_id (session_event payload) g m h (some-injective _ _ a) n
handle-IsOf (on_threat_notification payload) g m user_id h a n =
    emit_to-IsFor payload.user_id user_id (threat_notification payload.notification) g m h
      (some-injective _ _ a) n
handle-IsOf (connection _ _ _) g m user_id h a n = cc
handle-IsOf (disconnection _) g m user_id h a n = cc
handle-IsOf (on_interval _) g m user_id h a n = cc

-- The gateway after what it has heard.
abbrev pub after : List Inbound → GatewayState → GatewayState
after [] g = g
after (i ∷ is) g = after is (handle i g).1

after-AllAtHome : (is : List Inbound) (g : GatewayState) → AllAtHome g → AllAtHome (after is g)
after-AllAtHome [] g h = h
after-AllAtHome (i ∷ is) g h = after-AllAtHome is (handle i g).1 (handle-AllAtHome i g h)

-- After any connections, disconnections and events, an event that is meant for a user is sent only
-- to sockets that were authenticated as that user.
pub handle_isolated :
    (is : List Inbound) (i : Inbound) (ready : Bool) (m : Delivery) (user_id : String)
    → addressee i ≡ some user_id
    → In m (handle i (after is (record { ready = ready; sockets = [] }))).0
    → IsOf user_id m.socket
handle_isolated is i ready m user_id a n =
    handle-IsOf i (after is (record { ready = ready; sockets = [] })) m user_id
      (after-AllAtHome is (record { ready = ready; sockets = [] }) (λ s k. elim k [ ])) a n
