-- ===== src/Engine/Sink.antt =====
-- rule-engine/src/sink/diesel_sink.rs: an alert goes to Kafka and to the table of alerts, whose
-- primary key is the alert's id. The broker's answer and the database's failures are arguments.
use aigis_zero.Engine.Models.{Uuid, Alert, NewAlertEntity, entity_of}
use aigis_zero.Prelude.{
  String, Bool, false, ◌||◌, List, [], ◌∷◌, ◌++◌, map, Result, ok, err, if◌then◌else◌, ◌==◌,
}

-- What the topic of alerts and the table hold.
pub record Stores : Type 0 where
  pub topic : List Alert
  pub table : List NewAlertEntity

unfoldable pub has_alert : Uuid → List NewAlertEntity → Bool
has_alert id [] = false
has_alert id (a ∷ table) = a.alert_id == id || has_alert id table

-- `ON CONFLICT (alert_id) DO NOTHING` for one row, and for the rows of one statement.
unfoldable pub insert_row : NewAlertEntity → List NewAlertEntity → List NewAlertEntity
insert_row e table = if has_alert e.alert_id table then table else table ++ e ∷ []

unfoldable pub insert_rows : List NewAlertEntity → List NewAlertEntity → List NewAlertEntity
insert_rows [] table = table
insert_rows (e ∷ es) table = insert_rows es (insert_row e table)

pub record Failures : Type 0 where
  pub pool : Bool
  pub insert : Bool

module _ (accepted : Alert → Bool) where
  -- `kafka_producer.publish(alert)`
  abbrev pub publish : Alert → List Alert → List Alert
  publish a topic = if accepted a then topic ++ a ∷ [] else topic

  -- The broadcast; a record that the broker refuses is only logged.
  unfoldable pub broadcast : List Alert → List Alert → List Alert
  broadcast [] topic = topic
  broadcast (a ∷ alerts) topic = broadcast alerts (publish a topic)

  abbrev pub persist : Failures → List NewAlertEntity → Stores → Stores × Result String (Unit {0})
  persist f entities s =
      if f.pool
      then (s, err "Failed to acquire connection")
      else if f.insert
      then (s, err "Failed to insert")
      else (record s { table = insert_rows entities s.table }, ok tt)

  -- `DualAlertSink::send_alert`
  unfoldable pub send_alert : Failures → Alert → Stores → Stores × Result String (Unit {0})
  send_alert f a s =
      if accepted a
      then persist f (entity_of a ∷ []) (record s { topic = s.topic ++ a ∷ [] })
      else (s, err "publish")

  -- `DualAlertSink::send_batch`
  unfoldable pub send_batch : Failures → List Alert → Stores → Stores × Result String (Unit {0})
  send_batch f [] s = (s, ok tt)
  send_batch f (a ∷ alerts) s =
      persist f (map entity_of (a ∷ alerts)) (record s { topic = broadcast (a ∷ alerts) s.topic })
