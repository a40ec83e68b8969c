-- ===== src/Ipc.antt =====
-- src/ipc and src/include/ipc: the program behind the graphical interface.
pub mod Operation
pub mod Client
pub mod EventStream
pub mod Backend
pub mod Service
