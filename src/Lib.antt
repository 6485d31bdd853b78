-- ===== src/Lib.antt =====
-- Verification of DCScan-ModulesAPI: the server and client library that drives a double crystal
-- spectrometer. A client sends calls over a socket; the server decodes them, executes them through
-- a generated registry, and answers. Behind the registry stand the acquisition board, the motor
-- controllers, the measurement code and a database of variables.
--
-- The parts, and how they work together:
--
-- * Utils (DCS_Utils). ByteQueue is the byte stream of a connection: a receive thread adds bytes
--   and a decoder thread takes packets with a length prefix out of it (`addBytes`, `fetchNextMsg`).
--   MessageQueue is `SMessageQueue`, between the threads that make messages and the one that sends
--   them. Timer, Vector and Text are `SystemTimer` and `Timestamp`, `Vector<T>` and `String`.
-- * Network (DCS_Network). Message is `DefaultMessage` with its operations (src/message.cpp) and
--   what the send threads of src/client.cpp and src/server.cpp write; Message/RoundTrip takes it
--   through ByteQueue to the decoder. Calls is `SendAsync`, `SendSync`, the reply slot and the
--   promises. Server is src/server.cpp: log-in, the start of a connection, and the switch of the
--   decoder. Client is src/client.cpp: log-in, the decoder, the send thread, start and stop;
--   Client/Calling, Client/Promises and Client/Waiting put it together with Message, Calls and
--   Server. Cli is src/cli.cpp and the class `Command` of include/DCS_ModuleNetwork.h.
-- * Core (DCS_Core). Peaks is the peak counter of src/math.cpp. Database is src/db.cpp: the
--   variables, the log of events (`RDB`) and the cache in front of them (`Database`); Users is its
--   users, from which Network/Client/Admission goes on to the log-in. Auth is src/auth.cpp, Pid
--   src/pid.cpp, and Memory src/memory.cpp with include/DCS_ModuleCore.h.
-- * Acquisition (DCS_Acquisition). Tasks is src/daq.cpp and the event threads of
--   src/global_evts.cpp as the driver calls that they make; Channels is src/external_cmds.cpp on
--   top of it, and Events its callbacks and queues with the loops of src/global_evts.cpp. Encoder
--   is src/encoder.cpp, and Temperature the checksum of src/temperature.cpp.
-- * Engine (DCS_EngineControl). Commands is the class `Command` of include/internal.h and the loop
--   of src/control_service.cpp; Routing says what reaches the devices. Buffer is the class
--   `CmdBuffer`, Serial what src/serial_win.cpp makes of the characters of a port, and Motion is
--   src/external_cmds.cpp on top of Pid.
-- * Prelude holds the tests, lists, machine words and rows of failing calls that these share. Each
--   part has its runs and examples in a module Tests.
--
-- State is a record with one function for each operation. A call that waits on a condition variable
-- is cut where it releases its lock: ByteQueue.Stream and MessageQueue.Fifo are step relations over
-- the pieces, in which the threads interleave in any way. `Option` is used for what throws,
-- crashes, or waits, as its comment says. Numbers are natural numbers, and a machine word keeps its
-- wrap-around (`% 2 ^ w`) where the code computes in one. Two loops are on fuel. That of the peak
-- counter takes at least one sample in a round, so it gets the number of samples; that which reads
-- a number of bytes from a socket gets at least one in a round, so it gets that number. The
-- theorems about them hold for these amounts.
--
-- Code that is not in the repository is a parameter: SQLite, NI-DAQmx, OpenSSL, the library of the
-- encoder box, `recv`, the generated registry, `std::to_string`, `std::atof` and the operations on
-- `double`. Where a theorem needs something of it, this is a named hypothesis (`IsKeyed` and
-- `IsUserTable` for SQLite).
--
-- Not modelled: the sockets, the calls that open and write ports, and the logger, which are calls
-- of the system with logging around them; the thread pool; the tables of the database; the legacy
-- peak counter; the stop of the server's threads; the texts of the engine commands; the polling of
-- the temperature controllers. Failed allocations are left out everywhere.
pub mod Prelude
pub mod Utils
pub mod Core
pub mod Network
pub mod Acquisition
pub mod Engine
