-- ===== src/Rpc.antt =====
-- api/rpc: the ids that a request carries, how they are qualified and peeled at a hop, the graph of
-- connections, and the routes of an address.
pub mod Id
pub mod Segment
pub mod Address
pub mod Route
pub mod Reach
pub mod Find
pub mod Transit
pub mod Event
pub mod Framing
