-- ===== src/Mailbox.antt =====
-- neudc/core/communication/mailbox/zmq_mailbox.py, and the PUSH socket of zero_queue/zero_pub.py.
pub mod Inbound
pub mod Outbound
pub mod Snapshot
