-- ===== src/Email.antt =====
-- pantry/email: the queue of emails (queue.go).
pub mod Queue
