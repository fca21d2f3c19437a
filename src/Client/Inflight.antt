-- ===== src/Client/Inflight.antt =====
-- client/inflight: the claims of reads in flight, the latches of failed keys, and the tally of writes.
pub mod Keys
pub mod Claims
pub mod Reads
