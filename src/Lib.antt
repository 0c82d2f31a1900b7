-- ===== src/Lib.antt =====
-- Gambit Record: an evidence recorder for game moderators. The plugin (grecord/) runs inside the
-- game: it reads the packets of the server, watches the moderator's commands and tells the recorder
-- what to do. The recorder (recorder/) captures the game's window, keeps the last minutes as replay
-- segments, records on demand, and uploads what it saved to a broker.
--
-- Grecord/BitReader is grecord/src/BitReader.cpp: a packet is a list of bytes, a method takes the
-- reader and returns a value with the reader that it leaves, `false`, or a fault where it would read
-- outside of the packet. Grecord/Logic is grecord/src/Logic.cpp: the state of class Logic is a record
-- and each method is a function of the same name. Grecord/Plugin is grecord/src/Plugin.cpp: the
-- globals are a record, and it hands packets to BitReader and what they say to Logic. From the same
-- file Grecord/Window has the window procedure, the prompt and the settings page, Grecord/Hud the
-- status bar, Grecord/Game the versions of the client, the start and the cursor, Grecord/Links the link
-- and the folder of the recordings, and Grecord/Worker the launch of the recorder. Grecord/IpcClient is
-- grecord/src/IpcClient.cpp. grecord/src/UiConfig.cpp is in Grecord/UiConfig (the colours and the reader
-- of the theme's file), Grecord/UiConfig/Theme (the theme) and Grecord/UiConfig/Settings (the settings,
-- over an interface of floating-point numbers).
--
-- Recorder/Media and Recorder/States are recorder/src/common/Media.hpp and States.hpp, and
-- Recorder/BoundedQueue is BoundedQueue.hpp there, the queue between capture and encoder.
-- recorder/src/app/Application.cpp is in Recorder/Application (the pacing of frames behind that queue),
-- Recorder/Pipeline (the rest of the encoder's loop and its recovery), Recorder/Application/Commands
-- (recording, replays and markers), Recorder/Application/Requests (what a request says) and
-- Recorder/Application/Dispatch (handle_command and its answers). Requests come through
-- Recorder/IpcServer (recorder/src/ipc/IpcServer.cpp). Recorder/CaptureManager is
-- recorder/src/capture/CaptureManager.cpp, Recorder/Main recorder/src/main.cpp and Recorder/Log
-- recorder/src/logging/Logger.cpp.
-- recorder/src/video/MediaFoundationEncoder.cpp is in Recorder/Nal (contains_idr), Recorder/Transform
-- (the choice of an encoder and its configuration) and Recorder/VideoEncoder (encode and its drains).
-- Recorder/AudioCapture is recorder/src/audio/WasapiCapture.cpp.
-- Encoded samples go to Recorder/SegmentStore (recorder/src/replay/SegmentStore.cpp), the ring of
-- segments, through Recorder/ReplayBuffer (recorder/src/replay/ReplayBuffer.cpp), and to
-- Recorder/RecordingSession (recorder/src/recording/RecordingSession.cpp). Recorder/Select is what a
-- saved replay takes from the segments, Recorder/Mp4Muxer is recorder/src/recording/Mp4Muxer.cpp,
-- Recorder/Files is recorder/src/common/Files.cpp and Recorder/Config is recorder/src/config/Config.cpp.
-- Recorder/UploadQueue and Recorder/BrokerUploader are recorder/src/broker/UploadQueue.cpp and
-- BrokerUploader.cpp, Recorder/BrokerUploader/Channel the question for the channel there. Common has the
-- shared types and lemmas; the modules whose names end in Tests apply the theorems. A child module that
-- the list above does not name has lemmas and theorems on its parent.
--
-- Texts are their bytes, times are integers of 100 ns without a bound, and a method that holds its
-- mutex from its first line to its last is one step. `read_bits` and `Segment::read` run on fuel of the
-- bits to read and of the size of the file, each of which a round lowers; `upload_chunks` runs on a
-- fuel that the caller gives, since the source's loop has no bound of its own. A loop that waits for
-- Windows or a pipe takes the list of what each round gets.
--
-- Parameters, since their code is not in the repository or is Windows's: the sort of the selection,
-- Media Foundation's calls (whether they succeed and what they give), the audio client, the disk (what
-- it accepts), `weakly_canonical`, WinHTTP with the broker behind it, the pipe's calls, the clipboard,
-- the split of a command line, the JSON and MessagePack libraries, floating-point numbers,
-- ImGui's answers, the game's memory, the clock. Not modelled: drawing and the hooks into the game, the plugin's pages other than the settings
-- of the recorder, Direct3D and the capture backends, the copy of a texture, the state file of the
-- upload queue, the text encodings, the tests, the broker's own TypeScript.
mod Common
pub mod Grecord
pub mod Recorder
