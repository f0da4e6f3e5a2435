-- ===== src/State.antt =====
-- include/jenlib/state and src/state: the state machines of a sensor and of a broker, on the base
-- class that both share.
pub mod Machine
pub mod Sensor
pub mod Broker
