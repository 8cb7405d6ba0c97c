-- ===== src/Broker.antt =====
-- pkg/broker: the messages and the drivers.
pub mod Message
pub mod Driver
pub mod Mock
pub mod RabbitMq
