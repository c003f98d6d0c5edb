-- ===== src/Client/Wire.antt =====
-- src/client.rs with src/proto.rs: the bytes of the connections, and what the server reads in them.
pub mod Carried
pub mod Steps
pub mod Delivery
pub mod Served
pub mod Printed
pub mod Terminal
