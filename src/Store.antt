-- ===== src/Store.antt =====
-- pkg/store: the circular store. The children hold the state with its access to the files, the
-- allocator, the packed blocks, the object operations, the time index, the V1 insert, the lifecycle
-- and crash recovery; each has its theorems below it.
pub mod State
pub mod Valid
pub mod Freelist
pub mod Packed
pub mod Index
pub mod Contents
pub mod Objects
pub mod Insert
pub mod Recovery
pub mod Lifecycle
pub mod Json
pub mod Tests
