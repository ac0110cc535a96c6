-- ===== src/Broker/Webhook/Loads.antt =====
-- A run of the broker over a database that cannot be read: `LoadConfig` logs the error of `Load` and
-- returns the list beside it.
use pulsar_beam.Platform.{Platform}
