-- ===== src/Lib.antt =====
-- LanSend sends files between the devices of a local network over HTTPS.
--
-- Parts. A sending device prepares its files, asks the receiving device, cuts each file into chunks and
-- sends them, and asks for a verification of each file. A receiving device answers requests through
-- routes, lets its user confirm, writes chunks into a temporary file and moves a verified file to its
-- place. Both tell their user interface by feedbacks.
-- Devices find one another by broadcasts, and connect with a PIN code. The interface posts operations
-- into a queue, which a backend takes and hands to the parts. All C++ code lies under src/.
--
-- Files and code:
--   Base       std::string, std::unordered_map, std::vector, std::to_string, as far as they are used
--   Path       std::filesystem::path on POSIX: operator/, filename, stem, extension
--   Message    include/core/util/binary_message.h: CreateBinaryMessage, ParseBinaryMessage
--   Hasher     core/security/file_hasher.cc: FileHasher
--   Encryptor  core/security/file_encryptor.cc: FileEncryptor; Gcm is what it relies on of OpenSSL, Keys
--              EncryptKey and DecryptKey, OnFiles EncryptFileA and DecryptFileA
--   Certificates  core/security/certificate_manager.cc: CertificateManager; Stored, Restart and Sessions
--              hold what survives a restart
--   FileType   include/core/model/file_type.h: GetFileType, FileTypeToString
--   Model      include/core/model: the records of dto/ and feedback/, DeviceInfo, SessionStatus
--   Http       core/network/server/http_server.cc: the responses; ApiRoute: include/core/constant/route.h
--   Json       nlohmann::json as a parameter, `Codec`
--   Naming     the choice of the final path in ReceiveController::onVerifyIntegrity
--   Disk       std::fstream in ReceiveController::onSendChunk
--   Receive    core/network/server/controller/receive_controller.cc: the class as a record; its modules
--              Request (onRequestSend, waitForUserConfirmation), Chunk (onSendChunk), Verify
--              (onVerifyIntegrity), Cancel (onCancelSend, onCancelWait), and System, a step relation
--              over all handlers; Session, Handlers, Opening and Frame hold invariants
--   Server     HttpServer::handleRequest and the routes of the receiving side; Connection is
--              HttpServer::handleConnection
--   Send       core/network/client/send_session.cc: the class as a record; its modules Prepare
--              (prepareFiles), Transfer (sendFile, sendChunk, verifyIntegrity, cancelSend), Start
--              (requestSend, Start); Wire, Delivered and File hold the sender wired to the receiver's
--              server, Start/Ends how Start ends, Start/Order in which order the files are sent,
--              Prepare/Offers what is offered
--   Discovery  core/network/discovery/discovery_manager.cc: the class as a record, with the calls of
--              its callbacks as a list; View, Cleanup and Listening hold its properties
--   Connect    core/network/server/controller/common_controller.cc: CommonController; Client is
--              HttpsClient (core/network/client/http_client.cc), Client/Tidy its state after any calls
--   Settings   include/core/util/config.h: the struct, and feedback::Settings; Config is
--              core/util/config.cc, InitConfig and SaveConfig
--   Ipc        src/ipc and include/ipc: Operation (include/ipc/model), EventStream (ipc_event_stream.cc),
--              Client (the calls of HttpClientService), Backend (ipc_backend_service.cc), with the calls
--              that it makes as a list, Service (ipc_service.cc), the two loops on the pipes of the
--              interface; EventStream/Order, Backend/Rounds, Backend/Addressed and the modules of
--              Service hold their properties
--   Cli        src/cli/argument_parser.cc: ArgumentParser; Ports and Render hold its properties
--   Tests      runs at concrete inputs
--
-- State is passed explicitly: a handler takes the record and the outcome of the operating system for
-- this call (ChunkIo, VerifyIo, Entropy), and returns the new record and the response. The disk, an
-- association list from paths to contents, and the feedbacks are fields of the receiver's record. A
-- C++ exception is a value (Attempt, Outcome, Option). A coroutine is cut where it waits: Begun and
-- Pending on the receiver, Exchange on the sender, which says whether the user cancelled meanwhile.
-- Where the handler of a request to send runs as a whole, as a route, Waiting is what its wait comes to.
--
-- Paths. A file is known by the text of its path, so paths are taken to be in normal form: links, and
-- parts `.` and `..`, by which two texts name one file, are outside of the model. A sender that puts
-- such parts into a file_id or a file_name is therefore not covered by what is said of the disk.
--
-- Undefined behaviour. Where an int overflows in the choice of a final path, that choice has no result,
-- and the handler is treated as if std::stoi had thrown.
--
-- Parameters. The digest of OpenSSL (Digest), nlohmann::json (Codec, and DeviceCodec, ConnectCodec
-- and OperationCodec for other documents), the network and the peer (Network), what the file system
-- says of a path (FileAccess), the pipes of the interface (Pipes), clock and random numbers (Entropy)
-- are arguments; what is relied on of them is named: IsStreaming for the digest, Reads for JSON,
-- IsReliable for pipes, IsGcm for ciphers (Cipher), with ivs of at most 128 bytes and at most 2 ^ 36
-- - 32 bytes under one iv, Certificates/Trusted.Reads for the array of fingerprints (TrustCodec),
-- KeepsValues for toml++ (Toml).
--
-- Fuel. The search for a free name has one round more than there are files on the disk, and the read
-- loops of the hasher and of the encryptor one more than there are full buffers; that is enough, as
-- one of n + 1 names is free among n files, and each buffer before the last is full. The retries of
-- Start have no bound in the code, and the caller of `negotiate` and `start` chooses the fuel.
--
-- Not modelled: sockets, TLS, the making of keys and certificates, logging, ConnectDevice (whose
-- coroutine outlives the variables it refers to), the terminal, the GUI, Windows paths. Text is the
-- native String; a JSON dump that throws on invalid UTF-8 is left out, and so is an exception of the
-- user interface's callback.
pub mod Base
pub mod Message
pub mod Encryptor
pub mod Certificates
pub mod Hasher
pub mod Path
pub mod Naming
pub mod FileType
pub mod Model
pub mod Http
pub mod Json
pub mod Disk
pub mod Receive
pub mod Server
pub mod Send
pub mod ApiRoute
pub mod Settings
pub mod Discovery
pub mod Connect
pub mod Cli
pub mod Ipc
pub mod Tests
