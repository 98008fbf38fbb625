-- ===== src/Worker.antt =====
-- backend/tailer/worker.go: a worker takes deliveries from the queue, makes rows of them, inserts
-- them in batches, and settles each delivery.
pub mod Row
pub mod Loop
pub mod Settled
pub mod Balance
mod Tests
