-- ===== src/Feed/Streaming.antt =====
-- The streaming client (src/feed/streaming.py). The Lightstreamer client is its list of active
-- subscriptions; an epic stands for its subscription. Sets are lists without order.
pub mod Sync
mod Tests
use igthon.Prelude.{
  ℕ, zero, suc, ◌*◌, String, Bool, true, false, not, ◌&&◌, ◌||◌, Option, none, some, List, [], ◌∷◌,
  ◌++◌, min, ltb, length, if◌then◌else◌, contains, str_eq,
}
use igthon.Feed.Candle.{Candle}
use igthon.Feed.Buffer.{PriceBuffer, append_candles}

abbrev pub reconnect_statuses : List String
reconnect_statuses = "DISCONNECTED" ∷ "DISCONNECTED:WILL-RETRY" ∷ []

pub record StreamingClient : Type 0 where
  pub max_epics : ℕ
  pub max_backoff : ℕ
  pub buffer : PriceBuffer
  pub persisting : Bool
  pub persisted : List (String × Candle)
  pub has_client : Bool
  pub active : List String
  pub subscriptions : List String
  pub subscribed_epics : List String
  pub started : Bool
  pub connected : Bool
  pub reconnecting : Bool
  pub reconnect_delay : ℕ

-- `s.add(e)` and `s.discard(e)`
unfoldable pub add_epic : String → List String → List String
add_epic e s = if contains s e then s else s ++ e ∷ []

unfoldable pub discard : String → List String → List String
discard e [] = []
discard e (d ∷ ds) = let rest = discard e ds in if str_eq d e then rest else d ∷ rest

unfoldable pub subscribe_epic : String → StreamingClient → StreamingClient
unfolding add_epic
subscribe_epic e c =
    let known = record c { subscribed_epics = add_epic e c.subscribed_epics } in
    if not c.has_client || contains c.subscriptions e
    then known
    else record known { active = add_epic e c.active; subscriptions = add_epic e c.subscriptions }

unfoldable pub unsubscribe_epic : String → StreamingClient → StreamingClient
unfolding discard
unsubscribe_epic e c = record c {
  subscribed_epics = discard e c.subscribed_epics;
  subscriptions = discard e c.subscriptions;
  active = if contains c.subscriptions e && c.has_client then discard e c.active else c.active;
}

unfoldable pub unsubscribe_all : List String → StreamingClient → StreamingClient
unfolding unsubscribe_epic
unsubscribe_all [] c = c
unsubscribe_all (e ∷ es) c = unsubscribe_all es (unsubscribe_epic e c)

-- `list(dict.fromkeys(epics))`, past what was seen.
unfoldable pub distinct : List String → List String → List String
distinct seen [] = []
distinct seen (e ∷ es) =
    let more = distinct (e ∷ seen) es in
    let rest = distinct seen es in if contains seen e then rest else e ∷ more

unfoldable pub first : ℕ → List String → List String
first zero es = []
first (suc n) [] = []
first (suc n) (e ∷ es) = e ∷ first n es

unfoldable pub desired : ℕ → List String → List String
unfolding distinct first
desired cap epics = first cap (distinct [] epics)

-- `self._subscribed_epics - desired_set`
unfoldable pub without : List String → List String → List String
without [] ds = []
without (e ∷ es) ds = let rest = without es ds in if contains ds e then rest else e ∷ rest

unfoldable pub subscribe_missing : List String → StreamingClient → StreamingClient
unfolding subscribe_epic
subscribe_missing [] c = c
subscribe_missing (e ∷ es) c =
    subscribe_missing es (if contains c.subscribed_epics e then c else subscribe_epic e c)

unfoldable pub set_epics : List String → StreamingClient → StreamingClient
unfolding desired without unsubscribe_all subscribe_missing
set_epics epics c =
    let wanted = desired c.max_epics epics in
    subscribe_missing wanted (unsubscribe_all (without c.subscribed_epics wanted) c)

unfoldable pub resubscribe : String → StreamingClient → Bool × StreamingClient
unfolding discard subscribe_epic
resubscribe e c = if not c.has_client || not c.connected then (false, c) else (
  true,
  subscribe_epic e (record c {
    active = if contains c.subscriptions e then discard e c.active else c.active;
    subscriptions = discard e c.subscriptions;
    subscribed_epics = discard e c.subscribed_epics;
  }),
)

-- `_connect`, once the broker has given an endpoint and tokens.
unfoldable pub connect : StreamingClient → StreamingClient
connect c = record c { has_client = true; active = [] }

unfoldable pub teardown_client : StreamingClient → StreamingClient
teardown_client c = record c {
  has_client = false;
  active = [];
  subscriptions = [];
  connected = false;
}

-- The code before the await of `_connect`: whether to connect, or `none` for the RuntimeError that
-- the library is not installed.
unfoldable pub start : Bool → StreamingClient → Option Bool × StreamingClient
start has_lightstreamer c =
    if c.started
    then (some false, c)
    else if not has_lightstreamer
    then (none, c)
    else (some true, record c { started = true })

unfoldable pub stop : StreamingClient → StreamingClient
unfolding unsubscribe_all teardown_client
stop c =
    let off = record c { started = false } in
    teardown_client (unsubscribe_all off.subscribed_epics off)

-- Whether a reconnection is to be started, and the client; the first argument says that the status
-- starts with CONNECTED.
unfoldable pub handle_status : Bool → String → StreamingClient → Bool × StreamingClient
handle_status starts_connected status c =
    if starts_connected
    then (false, record c { connected = true })
    else if c.started && contains reconnect_statuses status && not c.reconnecting
    then (true, record c { connected = false; reconnecting = true })
    else (false, record c { connected = false })

-- The decision of the watchdog: a result, or a reconnection to wait for.
unfoldable pub ensure_connected : Bool → StreamingClient → Option Bool × StreamingClient
ensure_connected force c =
    if not c.started
    then (some false, c)
    else if c.connected && not force
    then (some true, c)
    else if c.reconnecting
    then (some false, c)
    else (none, record c { reconnecting = true })

unfoldable pub subscribe_all : List String → StreamingClient → StreamingClient
unfolding subscribe_epic
subscribe_all [] c = c
subscribe_all (e ∷ es) c = subscribe_all es (subscribe_epic e c)

-- `_reconnect` after the await of `_connect`, with the epics that it read before its sleep.
unfoldable pub reconnected : List String → StreamingClient → StreamingClient
unfolding connect subscribe_all
reconnected epics c = record (subscribe_all epics (connect c)) {
  reconnect_delay = 1;
  reconnecting = false;
}

unfoldable pub reconnect_failed : StreamingClient → StreamingClient
reconnect_failed c = record c {
  reconnect_delay = min (c.reconnect_delay * 2) c.max_backoff;
  reconnecting = false;
}

unfoldable pub on_candle : String → Candle → StreamingClient → StreamingClient
on_candle epic candle c = record c {
  buffer = append_candles epic (candle ∷ []) c.buffer;
  persisted = if c.persisting then c.persisted ++ (epic, candle) ∷ [] else c.persisted;
}
