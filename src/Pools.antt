-- ===== src/Pools.antt =====
-- The connection pools of the servers: ChatServerShared/MySqlPool.cpp and ChatServerShared/RedisConPool.cpp
-- (the status server and the gate have pools of the same text). A pool is its members and the calls in
-- progress; each section under the mutex, each atomic access and each call of the driver is one step,
-- and any calls may take their steps in any order. A wait of a borrower that ends with a time-out is
-- a borrowing that finds no connection.
pub mod MysqlPool
pub mod RedisPool
pub mod MysqlSlots
pub mod RedisReturn
pub mod RedisCount
pub mod RedisClose
pub mod RedisLost
