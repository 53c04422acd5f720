-- ===== src/Stream/Server.antt =====
-- StreamServer of src/stream/stream_server.cpp: its list of connections, and the login in front of
-- the read loop. TLS is a parameter: what SSL_read and SSL_write return is an argument.
pub mod Login
pub mod Connections
