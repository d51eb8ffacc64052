-- ===== src/Probe/Starttls.antt =====
-- internal/probe/starttls.go: the plaintext dialogues before a TLS handshake. A connection is the
-- bytes that the server sends until it is silent, with the lines that the client has sent.
pub mod Wire
pub mod Dialogue
pub mod Course
pub mod Replies
pub mod Commands
