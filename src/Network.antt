-- ===== src/Network.antt =====
-- server/remoteclient.cpp and client/remoteserver.cpp: the two ends of a TCP connection.
pub mod RemoteClient
pub mod RemoteServer
pub mod Transfer
pub mod Updates
pub mod Startup
pub mod Steering
pub mod Closing
pub mod Contract
