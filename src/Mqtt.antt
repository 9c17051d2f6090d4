-- ===== src/Mqtt.antt =====
-- The MQTT layer: include/syrius_orbit/mqtt.
pub mod Messages
pub mod Prune
pub mod Client
pub mod Subscriber
pub mod Publisher
pub mod EndPoint
