-- ===== src/Recorder.antt =====
-- The recorder process beside the game (recorder/src).
pub mod Media
pub mod States
pub mod BoundedQueue
pub mod SegmentStore
pub mod Select
pub mod Config
pub mod UploadQueue
pub mod BrokerUploader
pub mod ReplayBuffer
pub mod Application
pub mod IpcServer
pub mod CaptureManager
pub mod Main
pub mod Log
pub mod Files
pub mod Mp4Muxer
pub mod AudioCapture
pub mod Nal
pub mod Pipeline
pub mod Transform
pub mod VideoEncoder
pub mod RecordingSession
mod Tests
mod StoreTests
mod AppTests
mod EncoderTests
