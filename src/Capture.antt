-- ===== src/Capture.antt =====
-- src/meshchat/services/iq_recorder.py: recording and replaying raw I/Q.
pub mod Recorder
pub mod Replay
