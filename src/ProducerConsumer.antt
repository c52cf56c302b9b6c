-- ===== src/ProducerConsumer.antt =====
-- The threads of concurrency/producerconsumer_condv.c and producerconsumer_condv2.c, which
-- queue and dequeue values under one mutex and sleep on two condition variables.
pub mod Census
pub mod Points
mod Exclusive
pub mod Condv
pub mod Condv2
