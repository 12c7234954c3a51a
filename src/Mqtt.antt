-- ===== src/Mqtt.antt =====
-- mqtt_client/mqtt.c: MQTT 3.1.1 packets over the transport.
pub mod RemLen
pub mod Packet
pub mod Stream
pub mod Client
pub mod Loopback
mod Tests
