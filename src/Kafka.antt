-- ===== src/Kafka.antt =====
-- api/advisor/kafka_utils.py: messages, the dummy producer and consumer, and the dispatcher.
pub mod Message
pub mod Consumer
pub mod Producer
pub mod Dispatcher
