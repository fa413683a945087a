-- ===== src/Logging.antt =====
-- internal/logger/protohandler.go: Handle, which sends a long message in pieces.
pub mod Pieces
mod Tests
