-- ===== src/Connections.antt =====
-- foundry/connections: the pool of connections and the accessor that a tool call sees.
pub mod Pool
pub mod Accessor
