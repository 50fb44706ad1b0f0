-- ===== src/Worker/Sessions.antt =====
-- src/worker.rs: what the state says of the stream and of the session's time.
use satel_integra.Common.{if◌then◌else◌, ◌∙◌}
use satel_integra.Telemetry.{ConnectionTelemetry, increment}
use satel_integra.Common.{if◌then◌else◌, ◌∙◌, Bool-cases}
use satel_integra.Worker.{close_session}
use satel_integra.Common.{
  if◌then◌else◌, ◌∙◌, ℕ, Bool, true, false, Option, none, some, List, [], ◌∷◌, ◌≡◌, ◌⊎◌, inl, inr,
  arith, refl,
}
use satel_integra.Error.{SatelError, Result, ok, err}
use satel_integra.Telemetry.{ConnectionState, is_connected}
use satel_integra.Worker.{Worker, connection_lost, disconnect, set_state_connecting}
use satel_integra.Worker.Exchange.{
  is_answer, ◌>>=◌, count_io_error, received, read_error, closed, elapsed, W, ExchangeIo, Read,
  exchange, observe, receive, sent,
}

abbrev pub has_session : Option ℕ → Bool
has_session none = false
has_session (some t) = true

-- In which states there is a stream.
abbrev pub has_stream : ConnectionState → Bool
has_stream ConnectionState.connected = true
has_stream ConnectionState.handshake = true
has_stream ConnectionState.disconnected = false
has_stream ConnectionState.connection_lost = false
has_stream ConnectionState.connecting = false

-- The worker is in the given state, with a stream and a session as the state says.
unfoldable pub At : ConnectionState → Worker → Type 0
At s w =
    (w.telemetry.status.state ≡ s)
    × (has_session w.telemetry.connected_since ≡ is_connected s)
    × (w.stream ≡ has_stream s)

abbrev session : Worker → Option ℕ
session w = w.telemetry.connected_since

has_session-close_session :
    (now : ℕ) (t : ConnectionTelemetry) → has_session (close_session now t).connected_since ≡ false
unfolding close_session
has_session-close_session now t = ground arith

pub connection_lost-At :
    (s : ConnectionState) (now : ℕ) (w : Worker)
    → At s w
    → At ConnectionState.connection_lost (connection_lost now w)
unfolding At connection_lost
connection_lost-At s now w (h, k, l) = elim (Bool-cases (is_connected w.telemetry.status.state)) [
  | inl e ↦ (
    refl,
    rw e (
        has_session-close_session now
          (record (w.telemetry) { connections_lost = increment w.telemetry.connections_lost })),
    refl,
  )
  | inr e ↦
      let g : is_connected s ≡ false = rw (← h) e in
      let k' : has_session (session w) ≡ false = k ∙ g in (refl, rw e k', refl)
]

pub disconnect-At : (now : ℕ) (w : Worker) → At ConnectionState.disconnected (disconnect now w)
unfolding At disconnect
disconnect-At now w = (refl, has_session-close_session now w.telemetry, refl)

pub set_state_connecting-At :
    (now : ℕ) (w : Worker)
    → (has_session w.telemetry.connected_since ≡ false)
    → w.stream ≡ false
    → At ConnectionState.connecting (set_state_connecting now w)
unfolding At set_state_connecting
set_state_connecting-At now w h s = (refl, h, s)

observe-At :
    (s : ConnectionState) (cmd : ℕ) (ping : Bool) (first : ℕ) (rest : List ℕ) (w : Worker)
    → At s w
    → At s (observe cmd ping first rest w)
unfolding At observe
observe-At s cmd ping first rest w h = ground arith

-- What holds of the worker after a step: one predicate for a result, one for an error.
abbrev pub After : {A : Type 0} → (Worker → Type 0) → (Worker → Type 0) → Worker × Result A → Type 0
After Q E (w, ok a) = Q w
After Q E (w, err e) = E w

-- The state is as it was, or the connection was lost.
abbrev pub AtOrLost : ConnectionState → Worker → Type 0
AtOrLost s w = At s w ⊎ At ConnectionState.connection_lost w

After-if :
    {A : Type 0} (Q E : Worker → Type 0) (b : Bool) (x y : Worker × Result A)
    → After Q E x
    → After Q E y
    → After Q E (if b then x else y)
After-if Q E true x y h k = h
After-if Q E false x y h k = k

pub After-elim :
    {A B : Type 0} (Q E : Worker → Type 0) (r : Result B) (f : B → Worker × Result A)
    (g : SatelError → Worker × Result A)
    → ((b : B) → After Q E (f b))
    → ((e : SatelError) → After Q E (g e))
    → After {A = A} Q E (elim r [ ok b ↦ f b | err e ↦ g e ])
After-elim Q E (ok b) f g h k = h b
After-elim Q E (err e) f g h k = k e

pub After-test :
    {A : Type 0} (Q E : Worker → Type 0) (b : Bool) (x y : Worker × Result A)
    → After Q E x
    → After Q E y
    → After {A = A} Q E (elim b [ true ↦ x | false ↦ y ])
After-test Q E true x y h k = h
After-test Q E false x y h k = k

receive-At :
    (s : ConnectionState) (cmd : ℕ) (ping : Bool) (now : ℕ) (reads : List Read) (w : Worker)
    → At s w
    → After (At s) (AtOrLost s) (receive cmd ping now reads w)
unfolding receive At
receive-At s cmd ping now [] w h = inl h
receive-At s cmd ping now (elapsed ∷ reads) w h = inl h
receive-At s cmd ping now (read_error ∷ reads) w h =
    inr (connection_lost-At s now (count_io_error w) h)
receive-At s cmd ping now (closed ∷ reads) w h = inr (connection_lost-At s now w h)
receive-At s cmd ping now (received [] ∷ reads) w h = receive-At s cmd ping now reads w h
receive-At s cmd ping now (received (first ∷ rest) ∷ reads) w h =
    let k = observe-At s cmd ping first rest w h in
    let more = receive-At s cmd ping now reads (observe cmd ping first rest w) k in
    After-if (At s) (AtOrLost s) (is_answer cmd first) _ _ k more

pub exchange-At :
    (s : ConnectionState) (now : ℕ) (request : List ℕ) (cmd : ℕ) (io : ExchangeIo) (ping : Bool)
    (w : Worker)
    → At s w
    → After (At s) (AtOrLost s) (exchange now request cmd io ping w)
unfolding exchange At sent
exchange-At s now request cmd io ping w h =
    let k = receive-At s cmd ping now io.reads (sent request ping now w) (ground arith) in
    let l = connection_lost-At s now (count_io_error w) h in ground arith

-- A step of type W, from one predicate to `After`.
abbrev pub Triple :
    {A : Type 0} → (Worker → Type 0) → W A → (Worker → Type 0) → (Worker → Type 0) → Type 0
Triple P m Q E = (w : Worker) → P w → After Q E (m w)

Triple-go :
    {A B : Type 0} (Q R E : Worker → Type 0) (f : A → W B) (o : Worker × Result A)
    → ((a : A) → Triple Q (f a) R E)
    → After Q E o
    → After R E (
        let (w', r) = o in
        let out : Worker × Result B = elim r [ ok a ↦ f a w' | err e ↦ (w', err e) ] in out)
Triple-go Q R E f (w, ok a) u k = u a w k
Triple-go Q R E f (w, err e) u k = k

pub Triple->>= :
    {A B : Type 0} (P Q R E : Worker → Type 0) (m : W A) (f : A → W B)
    → Triple P m Q E
    → ((a : A) → Triple Q (f a) R E)
    → Triple P (m >>= f) R E
Triple->>= P Q R E m f t u w h = Triple-go Q R E f (m w) u (t w h)
