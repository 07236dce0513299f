-- ===== src/Proxy/Passthrough/Phases.antt =====
-- The calls that a connection may make, as a state machine.
use edged.Base.{
  ℕ, ◌≡◌, ◌≢◌, ◌⊎◌, true, false, Option, List, [], ◌∷◌, ◌++◌, Bytes, Run, ok, panic, no_fuel,
  if◌then◌else◌,
}
use edged.Proxy.Copying.{CopyEnd, running, Copied}
use edged.Proxy.Router.{Url}
use edged.Proxy.Passthrough.{
  dialed, header_sent, upstream_closed, Event, deadline_set, peeked, deadline_cleared, handshaken,
  served, conn_closed, group_done, upstream_event, piped, Course, behind_calls,
}

-- How far a connection is.
pub data Phase : Type 0 where
  accepted armed waited known refused opened announced relaying relayed released secured answered
        closed over :
      Phase

-- A phase in which nothing but the connection itself is open.
pub data Idle : Phase → Type 0 where
  idle_armed : Idle armed
  idle_waited : Idle waited
  idle_known : Idle known
  idle_refused : Idle refused
  idle_released : Idle released
  idle_secured : Idle secured
  idle_answered : Idle answered

-- A phase in which the upstream can be piped to.
pub data Reached : Phase → Type 0 where
  when_opened : Reached opened
  when_announced : Reached announced

-- The calls that are allowed in each phase. Behind a successful dial the connection is closed only
-- when the upstream has been, and nothing is closed while a copy runs on.
pub data Calls : Phase → Event → Phase → Type 0 where
  arm : (n : ℕ) → Calls accepted (deadline_set n) armed
  wait : Calls armed peeked waited
  clear : Calls waited deadline_cleared known
  fail :
      (by : Option Url) (addr : Bytes) → Calls known (upstream_event (dialed by addr false)) refused
  connect :
      (by : Option Url) (addr : Bytes) → Calls known (upstream_event (dialed by addr true)) opened
  announce : (header : Bytes) → Calls opened (upstream_event (header_sent header)) announced
  relay :
      {p : Phase} (up down : CopyEnd × Copied)
      → Reached p
      → up.0 ≢ running
      → down.0 ≢ running
      → Calls p (piped up down) relayed
  go_on :
      {p : Phase} (up down : CopyEnd × Copied)
      → Reached p
      → (up.0 ≡ running) ⊎ (down.0 ≡ running)
      → Calls p (piped up down) relaying
  give_up : Calls announced (upstream_event upstream_closed) released
  release : Calls relayed (upstream_event upstream_closed) released
  secure : Calls known handshaken secured
  answer : Calls secured served answered
  close : {p : Phase} → Idle p → Calls p conn_closed closed
  leave : Calls closed group_done over

infixr 40 ◌then◌
pub data Runs : Phase → List Event → Phase → Type 0 where
  stop : {p : Phase} → Runs p [] p
  ◌then◌ :
      {p q r : Phase} {e : Event} {events : List Event}
      → Calls p e q
      → Runs q events r
      → Runs p (e ∷ events) r

-- The run ends by a value that has the property or by a panic.
abbrev pub EndsWith : (Course → Type 0) → Run Course → Type 0
EndsWith P (ok course) = P course
EndsWith P panic = Unit
EndsWith P no_fuel = ⊥

-- The calls of a function that has returned lead to a phase in which the connection can be closed,
-- and those of one that has not to the phase in which a copy runs on.
pub data Settles (from : Phase) : Course → Type 0 where
  settling :
      {last : Phase} {events : List Event}
      → Idle last
      → Runs from events last
      → Settles from (events, true)
  unsettled : {events : List Event} → Runs from events relaying → Settles from (events, false)

-- The connection is closed, or a copy runs on.
abbrev pub Concluded : Course → Type 0
Concluded (events, true) = Runs accepted events over
Concluded (events, false) = Runs accepted events relaying

pub Runs-append :
    {p q r : Phase} {xs ys : List Event} → Runs p xs q → Runs q ys r → Runs p (xs ++ ys) r
Runs-append stop s = s
Runs-append (c then r) s = c then Runs-append r s

pub then-Settles :
    {p q : Phase} {e : Event} {course : Course}
    → Calls p e q
    → Settles q course
    → Settles p (behind_calls (e ∷ []) course)
then-Settles c (settling i r) = settling i (c then r)
then-Settles c (unsettled r) = unsettled (c then r)

pub settled : {p : Phase} → Idle p → Settles p ([], true)
settled i = settling i stop
