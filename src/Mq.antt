-- ===== src/Mq.antt =====
-- admin/internal/mq and admin/internal/mqhandler: operation-log messages over RabbitMQ. `Message`
-- has the protocol, `Handler` the database side, `Consumer` the handling of a delivery, `Publisher`
-- the confirmed publishing. JSON, AMQP and tracing are inputs.
pub mod Message
pub mod Handler
pub mod Consumer
pub mod Publisher
pub mod Delivery
pub mod Confirm
