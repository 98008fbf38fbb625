-- ===== src/Prelude/Calls.antt =====
-- What can happen to a call of another program (Redis, the queue): it is answered, or it fails before
-- or after it had its effect there.
pub data Reply : Type 0 where
  answered failed_before failed_after : Reply
