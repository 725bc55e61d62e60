-- ===== src/Lib.antt =====
-- qcp copies files between machines: it starts itself on the remote host over ssh, agrees on the
-- parameters of a QUIC connection over a control channel, and then moves the files over QUIC. This
-- library models the parts that decide something; what they read from and write to is explicit.
--
-- How the parts interact. A client takes its configuration from layers of sources (Config.Manager),
-- of which the files in the style of ssh_config are read by Ssh. Both ends declare a compatibility
-- level and settle on one (Protocol.Compat). The client sends its wishes in a client message of the
-- version that this level calls for (Protocol.Control.ClientMsg), the server resolves them with its
-- own configuration (Transport), validates the result (Config) and answers with a server message
-- (Protocol.Control.ServerMsg), which the client merges over its layers. All messages are framed
-- (Protocol.Framing); from the second version on they carry tagged values (Protocol.DataTag,
-- Protocol.Variant). The client makes copy jobs of the paths of its command line (Client.Jobspecs),
-- works through them (Client.Recursive, Client.Transfers), and runs each as a session (Session).
--
-- Which file models what (paths from the root of the repository):
--   Prelude: names of the libraries, lists, results, integers, and text as lists of code points with
--     the functions of Rust's `str` and of its decimal integers.
--   Util/PortRange: qcp/src/util/port_range.rs (`PortRange`, `from_str`, `combine`).
--   Util/Stopwatch: `Stopwatch` and `StopwatchChain` of qcp/src/util/time.rs, over given instants.
--   Protocol/Compat: qcp/src/protocol/compat.rs, `Compatibility` of qcp/src/protocol/control.rs, and
--     the agreement of qcp/src/control/channel.rs.
--   Protocol/Variant, Protocol/DataTag: qcp/src/protocol/variant.rs and data_tag.rs.
--   Protocol/Framing: qcp/src/protocol/common.rs. A reader is the bytes to come, a writer the bytes
--     written; the codec of serde_bare is a parameter, with its round trip as a named hypothesis.
--   Protocol/Control, with ClientMsg and ServerMsg: qcp/src/protocol/control.rs and the files
--     client_msg.rs and server_msg.rs below it; `received` is the unpacking in channel.rs.
--   Config, Config/Manager: qcp/src/config/structure.rs (`validate`, the windows) and manager.rs over
--     typed layers in place of figment's dictionaries. Extraction (`get`) reads the port ranges back
--     from their text, which can fail; the other fields are typed already.
--   Transport: `combine_bandwidth_configurations` and its helpers in qcp/src/transport.rs. The macro
--     calls of one parameter each are `rx_entries` to `timeout_entries`.
--   Channel, Channel/Cert: the two sides of qcp/src/control/channel.rs between the greetings and the
--     end of the handshake, and the kinds of credentials of qcp/src/util/cert.rs. What a side sends is
--     part of its result.
--   Ssh/Lines, Ssh/Matching, Ssh/Keywords, Ssh/Files: lines.rs, matching.rs and files.rs below
--     qcp/src/config/ssh. The wildcard matcher and the file system are parameters.
--   Ssh/Includes: qcp/src/config/ssh/includes.rs. The environment and the glob are parameters.
--   Session/Listing: `ListData` of qcp/src/protocol/session/response.rs, and the client's loop over
--     the packets in qcp/src/session/ls.rs. The lengths of encodings are parameters.
--   Session/Attributes, Session/Messages, Session/Transfer: the files of qcp/src/protocol/session.
--   Session/Files: qcp/src/util/file_ext.rs and metadata_ext.rs for Unix, over the system calls of a
--     file system as operations on a world of any type. Util/FilePath: the functions of Rust's paths.
--   Session/Exchange, Session/Effects: a stream with two ends, each of which is a tree of sends and
--     receives as its `async` code awaits them, with its own world; and qcp/src/session/common.rs.
--     The two ends go on in any order (`Step`); Schedule, Progress and Ending say what comes of it.
--   Session/Put, Session/Get, Session/Directories, Session/List: both ends of the commands in
--     qcp/src/session (put.rs, get.rs, mkdir.rs with set_meta.rs, ls.rs).
--   Session/Requests: qcp/src/session/factory.rs, qcp/src/server/stream.rs and `run_request` of
--     qcp/src/client/main_loop.rs.
--   Channel/Opening, Channel/Closing: the banner and the greetings before those messages, and the
--     closedown report at the end (qcp/src/protocol/control).
--   Client/Job: qcp/src/client/job.rs, and `override_path_is_local` of qcp/src/os.
--   Client/Paths, Client/Jobspecs: qcp/src/util/path.rs and dirwalk.rs, and `jobspecs`,
--     `remote_host_lossy` and `remote_user_as_config` of qcp/src/cli/args.rs. The walk over a
--     directory is a parameter.
--   Client/Transfers: `process_file_transfers` of qcp/src/client/main_loop.rs. The remote and the
--     local file system are a world of any type, which the operations of `Session` change.
--   Client/Recursive: `process_job_requests` and `process_recursive_get` of the same file, which make
--     new jobs of the listings of the remote; Places says where their files go.
--   Tests: runs at concrete inputs.
--
-- Fuel. `Ssh.Lines.arguments` spends one unit on each character or token, and gets one more than
-- there are characters. The fuel of `Ssh.Files.parse_file_inner` is the limit of 16 nested includes
-- of the program itself, and running out of it is the program's error. The loop of
-- `Session.Listing.packets` need not end: it gets one unit for each entry. The
-- client's loop over the packets of a listing (`Session.List.read_packets`) has fuel, of which one
-- unit for each packet is enough (`list_delivers`). All else is structural.
--
-- Streams. The sessions' streams carry framed messages and single bytes; what a frame is made of is
-- in Protocol/Framing. Sending never fails on its own: a connection that is cut shows in what a copy
-- into the stream gets through, and flushing always succeeds. The handler of a listing whose splitting
-- does not end diverges: it never finishes, and the client waits for it (`Session.Exchange.diverge`).
--
-- Numbers. An unsigned integer is a natural number, and what bounds it is written where it matters:
-- in the parsers, in casts (`% 2 ^ 16`, `% 2 ^ 64`) and in `checked_mul`.
--
-- Not modelled: input and output, quinn and its transport configuration, the ssh subprocess, the
-- accepting of connections, progress display, the options of the command line, figment's profiles
-- and error texts, and the engineering notation of quantities (the parameter `reread`).
pub mod Prelude
pub mod Util
pub mod Protocol
pub mod Config
pub mod Transport
pub mod Channel
pub mod Ssh
pub mod Session
pub mod Client
pub mod Tests
