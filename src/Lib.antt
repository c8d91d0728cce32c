-- ===== src/Lib.antt =====
-- A verification library for no3, the package manager and language server of Nitrate.
--
-- The language server (lib/src/lsp) reads messages from a stream, keeps the open files, and
-- answers. Lsp/Http is the framing of messages: `ParseHttpMessage` of
-- lib/src/lsp/server/ReadMessage.cc and what `Context::SendMessage` writes. Lsp/Protocol is the
-- JSON-RPC part of ReadMessage.cc and the messages of lib/src/lsp/protocol. Lsp/Text is
-- lib/src/lsp/resource/File.cc: the positions in a text and their UTF-16 columns. Lsp/Browser is
-- lib/src/lsp/resource/FileBrowser.cc: the table of open files and the edits of their contents.
-- Lsp/Context is lib/src/lsp/server/Context.cc with the handlers of lib/src/lsp/support/route:
-- Documents the handlers on documents, Dispatch the tables of routes, and Traces its log subscriber
-- with lib/src/lsp/protocol/LogTrace.hh. Lsp/Scheduler is lib/src/lsp/server/Scheduler.cc with the
-- queue of ThreadPool.cc, as a step relation, and Lsp/Server the loop of
-- lib/src/lsp/server/Server.cc.
--
-- The packages (lib/src/core): Package/Manifest is the data of lib/src/core/package/Manifest.hh,
-- Package/Validate and Package/Convert the namespaces `check` and `convert` of Manifest.cc with
-- `FromJson`, Package/Convert/Print its `ToJson`, Package/Manifest/Stages and
-- Package/Manifest/Setters its setters, Package/Regex the regular expressions of its patterns, and
-- Package/Spdx the search of lib/src/core/static/SPDX.cc.
--
-- The creation of a package (lib/src/init): Init is the options of InitPackage.hh, Init/Texts and
-- Init/Templates the texts of InitialData.cc, Init/Package the functions of InitPackage.cc, and
-- Init/Command the command of Run.cc. Package/LicenseText is lib/src/core/static/SPDX-API.cc. They
-- work on an abstract file system (FileSystem) with an instance in FileSystem/Sample.
--
-- The commands: Cli/Library is the count of the handles in lib/src/core/cli/Start.cc, Cli/LogLevel
-- its log level, Cli/Interpreter lib/src/core/cli/Interpreter.cc, and Lsp/Run lib/src/lsp/Run.cc.
-- The log and its subscribers (Cli/Log) are an interface.
--
-- The command `format` (lib/src/format/core/Run.cc): Format/Arguments is its arguments and the
-- files that they mean, Format/Config its configuration, Format/File the formatting of files, over
-- an abstract disk (Format/Disk); the parser and the writers of the compiler library are arguments.
--
-- The command `impl`: Impl is the dispatch of lib/src/impl/Run.cc and `config-check` of
-- lib/src/impl/ConfigParse.cc. The command `version`: Version is lib/src/version/Run.cc.
--
-- The log is not in the repository: which lines it hands to its subscribers for a message, and what
-- their text is, are arguments of a session (Dispatch), which sends them on as traces. Memory is taken
-- to suffice, but for a content that a header says is longer than what the stream holds (Lsp/Http).
--
-- State is passed explicitly: a method takes the record and returns the new one with its result. A
-- failed `qcore_assert` is a value, and so is an exception that leaves the modelled code. Bytes are
-- natural numbers; 64-bit wrap-around is written out where the code can reach it, and theorems that
-- need a size below 2 ^ 63 say so. A `std::map` is an association list that is read by key, a
-- `std::set` its ascending list.
--
-- Fuel: the loop over header lines has one more than the bytes of the stream, and decimal digits
-- one more than the number; both are shown to be enough. The search for a new folder gives up by
-- itself behind 65536 attempts, and has fuel for one more; the loop over the chunks of a compressed
-- text has the length of the text. All else is structural recursion.
--
-- The JSON library is an interface (Json), with an instance in Json/Sample at which theorems are
-- applied. The table of SPDX licenses, the answers of the network and the parsed options of a
-- command are arguments. Not modelled: sockets and threads beyond the steps of the scheduler,
-- the printers of the formatter and the developer commands, which work on the syntax trees
-- of the compiler library, and the commands that only call the file system or the network.
pub mod Prelude
pub mod Json
pub mod FileSystem
pub mod Cli
pub mod Lsp
pub mod Package
pub mod Init
pub mod Format
pub mod Impl
pub mod Version
