-- ===== src/Lib.antt =====
-- common_fw, a framework for clusters of game servers in Go: verification of its core logic.
--
-- Parts of the program and the files that model them (paths from src/xxgame.com/):
--
-- * component/mjana/mjana.go, the analysis of mahjong hands. Mahjong/Cards.antt has cards, CardEq and
--   is7Dui. Mahjong/Analyser.antt has HuAnalyser001: the counters AllPai, split3np2 and
--   firstLevel, changed and restored in place by explicit state passing. Mahjong/Hand.antt has init,
--   recursive3np2, Split001, Split002 and AnalyzeNormalCardsOpt. Mahjong/Wild.antt has hands with wild
--   cards: excludCard, PreAna3NP2WildCards and the sequential search below Analyze3NP2WildCards.
--   Mahjong/Split.antt has Split, which starts a goroutine for each use of a hand's first card, and
--   AnalyzeNormalCards and SplitOpt on top of it; the order in which results come out of a channel is
--   a parameter, any permutation for each goroutine.
--   Mahjong/Parallel.antt has the goroutines that search side by side and share the variable isHu, as
--   a step relation: each write, test, send and receive is a step, and their order is any; weaker
--   memory orders are not modelled. Mahjong/Parallel/Search.antt has AnalyzeWildCards and the
--   search by goroutines below it, as relations between the arguments and what may be returned by
--   runs in which no analysis panics.
--   A counter array [10]int32 is a function from indices; the code's index 10, past the end, is
--   the outcome `panic`. Counts are natural numbers: the code subtracts only what it has tested or
--   what the total covers. Cards are what the protobuf getters return; a nil entry in a
--   hand is not modelled. The protobuf types are generated from a file that is not in the
--   repository: the numbers of CardType are the parameter CardTypes, with the hypothesis IsNumbered
--   that they count from 1, as the code's indexing by type - 1 wants. Go's sort.Sort is a parameter
--   that returns a permutation of its input.
-- * component/net/net.go, the network layer. Net/Framing.antt has the packet that SendMsg builds and
--   the loop of recv on the bytes of the stream; sockets, deadlines and the silence test enter as
--   the chunks that a read yields and the results of writes to the pipe. Net/Sending.antt has send and readPacketsFromPipe
--   on the answers of the pipe, in whose loop an answer that is missing is a wait. Net/Conn.antt has SendMsg's
--   tests, closeNow and RegisterDisconnCallback; the socket's and the pipe's answers are arguments, and the calls of one
--   connection follow one another.
-- * component/net/client/client.go, the client of a cluster, in Net/Client.antt (configuration,
--   Start, Stop, reloadCfg), Net/Client/Routing.antt (SendMsg) and Net/Client/Jobs.antt (connJob and
--   checkConns, and a step relation of the component with its jobs). A connection is a number, an
--   address a text as in Service/Config.antt; a map that the code ranges over is the list of its
--   entries in the order of the range. What the locks let others change between two looks of the
--   round robin, connections and the shared robinIdx, is an argument; the list of servers stays while
--   a message is sent. NewCommu's
--   answer, SendNormalMsg's and the hash are parameters.
-- * component/net/server/server.go, the server, in Net/Server.antt: the job of a connection on what its
--   rounds meet (whether the connection is closed, a tick, a message, the time). Encoding and decoding
--   are parameters, an IP is the bytes that To4 gives, and the connection manager has its channels.
-- * component/cfg/cfg.go, the manager of configurations, in CfgMng.antt (a configuration with its two
--   buffers, load and ReloadAndSave) and CfgMng/Manager.antt. Files, UnmarshalText, md5, the callbacks and
--   the clock are arguments of each call, and calls follow one another.
-- * component/datasdk, access to data, in DataSdk.antt (data and helper.go's values),
--   DataSdk/Rules.antt (RegRules, CheckOps, NewData; DataSdk/Legal.antt says without the
--   code what CheckOps is to accept) and DataSdk/Sessions.antt (StartDataOps, DoDataOps,
--   recvJob and the timers of sessions as a step relation). The protobuf types are generated from a
--   file that is not in the repository: the numbers of OpType and the data type that the getter
--   returns for nil are parameters. The rules' keys, which the code prints to texts, are the pairs
--   of numbers. utils/hash.go is in Utils/Hash.antt; package hash/fnv is a parameter.
-- * utils/buffer.go, arithmetic on numbers stored as bytes, in Utils/Buffer.antt. An int is its two's
--   complement, a natural number below 2 ^ 32 or 2 ^ 64, and additions wrap around. A nil buffer and an
--   error are `none`.
-- * utils/server_id.go and utils/session_id.go, ids as numbers and as fields, in Utils/Ids.antt.
-- * component/uuid/uuid.go, the id generator, in Uuid.antt: a call as a function of the id, and calls
--   that interleave as steps that read and steps that add. component/obj/obj.go, the manager of
--   objects, in Obj.antt: each call under the lock is a function of the state; the creator's object
--   and the answer of its Init are arguments, and only the manager draws from its generator.
-- * framework/base/service.go, the timers of a service, in Service/Timeouts.antt and
--   Service/Timeouts/Running.antt. An action that
--   MainLoop takes from the channel is a function of the maps; the channel with the goroutines
--   that write to it and wait for their times is a step relation. The map of channels holds numbers
--   for channels, and which are closed is part of the state; the clock and which functions panic are
--   arguments. Ids are texts that are only compared, and are numbers here.
--   Service/Config.antt has OnNewCfg with the conversions of utils/server_id.go: a text is a number
--   that strings.Split and strconv.Atoi, which are parameters, take apart; entries without an
--   id, on which the code panics, are not modelled. Service/Messages.antt has
--   framework/base/msgmap.go; handlers are parameters that return what they return. Service/Perf.antt
--   has the statistics of framework/base/perf.go; times are natural numbers, too small to wrap around.
--   Service/Connections.antt has the connection manager of framework/base/connmng.go, and the part of
--   connJob that tells it of connections, as a step relation; a connection's close, its callback and
--   the callback's send are one step.
-- * component/routinepool/routinepool.go, the pool of goroutines, in Pool.antt, as a step relation of the
--   goroutines and the calls of DispatchTask; a goroutine's channel is its number, a task is a number;
--   calls of Start follow one another.
-- * component/gps/gps.go, groups of users, in Gps.antt; the distance of two positions and its comparison
--   with the threshold are parameters, as floating point is not modelled.
-- * component/timer/timer.go, the manager of timers, in Timer.antt: NewTimer and DelTimer, each under
--   its locks, are functions of an initialized manager's tables and of which channels hold a value;
--   the calls and the goroutines that wait are a step relation. NewTimer's id is an argument; in
--   the relation it is one that is not in use, as GenID's ids are until it has wrapped around.
-- * component/auth/auth.go, tokens, in Auth.antt. proto's encoding and the cipher are a parameter;
--   IsInverse says that they can be undone.
--
-- Fuel: split3np2 recurs on fuel, one more than the tiles of the suit, since each call takes three;
-- split on one more than the cards, since each branch takes two or three;
-- packet_loop on the length of the buffer, since each message takes at least one byte; the round
-- robin of SendMsg on one more than the servers, since it looks at each at most once; a route entry
-- on the places of the table behind its first; the loop over the groups of users on twice their
-- number and one, since a group that it appends makes it append no further one. The theorems about them prove that the fuel is enough.
--
-- Not modelled: logging, input and output, databases, the web server, generated code, the start of
-- services, the synchronisation of configurations, channels with time-outs, distances in
-- floating point, and the searches for wild cards that collect results, which only the tests call.
pub mod Auth
pub mod Common
pub mod CfgMng
pub mod DataSdk
pub mod Gps
pub mod Mahjong
pub mod Net
pub mod Utils
pub mod Uuid
pub mod Obj
pub mod Pool
pub mod Service
pub mod Timer
