-- ===== src/Feed/Streaming/Tests.antt =====
-- The streaming client at concrete inputs.
use igthon.Prelude.{◌≡◌, refl, true, false, [], ◌∷◌, contains}
use igthon.Feed.Buffer.{empty}
use igthon.Feed.Streaming.{
  StreamingClient, set_epics, desired, distinct, first, reconnected, reconnect_failed, add_epic,
  discard, subscribe_epic, unsubscribe_epic, unsubscribe_all, without, subscribe_missing,
}
use igthon.Feed.Streaming.Sync.{reconnected-active}

abbrev online : StreamingClient
online = record {
  max_epics = 2;
  max_backoff = 60;
  buffer = empty 200;
  persisting = false;
  persisted = [];
  has_client = true;
  active = "DAX" ∷ "EUR" ∷ [];
  subscriptions = "DAX" ∷ "EUR" ∷ [];
  subscribed_epics = "DAX" ∷ "EUR" ∷ [];
  started = true;
  connected = true;
  reconnecting = false;
  reconnect_delay = 40;
}

-- One epic goes, one comes, and a third is cut off.
set_epics-online :
    (set_epics ("EUR" ∷ "EUR" ∷ "FTSE" ∷ "CAC" ∷ []) online).active ≡ "EUR" ∷ "FTSE" ∷ []
unfolding set_epics desired distinct first without unsubscribe_all unsubscribe_epic discard
    subscribe_missing subscribe_epic add_epic
set_epics-online = refl

backs_off : (reconnect_failed online).reconnect_delay ≡ 60
unfolding reconnect_failed
backs_off = refl

-- FTSE was added while the client was reconnecting, and is not subscribed.
abbrev torn_down : StreamingClient
torn_down = record online {
  has_client = false;
  active = [];
  subscriptions = [];
  subscribed_epics = "DAX" ∷ "EUR" ∷ "FTSE" ∷ [];
  connected = false;
  reconnecting = true;
}

reconnected-active_example :
    contains (reconnected ("DAX" ∷ "EUR" ∷ []) torn_down).active "FTSE"
    ≡ contains ("DAX" ∷ "EUR" ∷ []) "FTSE"
reconnected-active_example = reconnected-active ("DAX" ∷ "EUR" ∷ []) torn_down "FTSE" refl
