-- ===== src/Broker.antt =====
-- What stands between a request and a broker: ailee_plugins/detail and
-- ailee_plugins/plugins/execution/alpaca.
pub mod Journal
pub mod Json
pub mod Alpaca
pub mod Sample
