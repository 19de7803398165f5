-- ===== src/Example.antt =====
-- example/: the C++ servers and clients that use the library.
pub mod Options
pub mod Program
pub mod Usage
pub mod ServerMain
pub mod EchoServer
pub mod EchoClient
pub mod Echo
pub mod SessionMap
pub mod Chat
pub mod Notification
pub mod Hub
pub mod Refused
