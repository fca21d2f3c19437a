-- ===== src/Lib.antt =====
-- Gridwell is a personal space of tiles on nested grids, federated across plugins and machines. A
-- node's router moves requests along ids: an id is a chain of segments, one for each hop, and every
-- hop qualifies ids on the way out and peels them on the way in. The client keeps what the node has
-- not yet acknowledged, what it has asked for, and what it has to say.
--
-- Where each part of the repository is modelled:
--
--   api/idshape/idshape.go        IdShape: ValidateSegment (validate_segment), NewShortID
--                                 (new_short_id); proofs in IdShape/Mint.
--   api/rpc/types.go (id codec)   Rpc/Id: QualifyID, SplitID, NamespaceOf, LocalOf and the rest,
--                                 each under its name in snake case, with its laws.
--   api/rpc/segment.go            Rpc/Segment: KeyTileID, TileKey, ShapeOf, OwnerNamespaceOf,
--                                 SharedOwner, ChainedThrough; proofs in Rpc/Segment/Keys and Owner.
--   api/rpc/transit.go            Rpc/Transit: the outbound Qualify functions, InboundHop, PeelID,
--                                 PeelTile, PeelRequest and the event rewriting; proofs in
--                                 Rpc/Transit/Peel. Wire holds the messages.
--   api/rpc/find.go               Rpc/Find: ParseFindQuery.
--   api/rpc/address.go, route.go  Rpc/Address and Rpc/Route: MatchAddress, CheckRoute, Decide,
--                                 Routing; proofs in Rpc/Address/Glob and Rpc/Route/First.
--   api/rpc/reach.go              Rpc/Reach: the connection graph, ChainOf, Walk, Route, Respell,
--                                 HeldAcross; proofs in Rpc/Reach/Spelling and Search.
--   client/inflight               Client/Inflight: claimSet (Claims), latch (Keys), Reads, Writes;
--                                 the account of it in Claims/Account, proofs in Claims/Holders
--                                 and Fetches, and in Reads/Latches.
--   client/clientsync             Client/Sync: Of and the React tables; proofs in Client/Sync/Verdicts.
--   client/outbox/outbox.go       Client/Outbox; proofs in Client/Outbox/Owed and Ledger.
--   client/outbox/chain.go        Client/Outbox/Saves: SaveQueue; proofs in Saves/Served and Fifo.
--   client/pane/pane.go           Client/Pane: the tree and its edits (also RemoveSegment of
--                                 resize.go); proofs in Client/Pane/Panes, Sound and Grow.
--   client/errsurface             Client/Notices: the notice queue; proofs in Client/Notices/Queue.
--   api/rpc/event.go              Rpc/Event: ApplySelect, SelectRefusal, EventKey; proofs in
--                                 Rpc/Event/Select and Entity.
--   internal/eventhub             Server/Hub: Hub, subscriber and its pump; the enqueues that have begun
--                                 in Server/Hub/Enqueues, runs in Logged, proofs in Server/Hub/Queue
--                                 and Delivery.
--   client/retry                  Client/Retry: Backoff, Reconnect and Run; proofs in
--                                 Client/Retry/Pace.
--   client/debounce               Client/Debounce: Debounce; its runs under a scheduler in
--                                 Client/Debounce/Windows and Runs.
--   api/rpc/framing.go            Rpc/Framing: NewFraming, View and Reframe; proofs in
--                                 Rpc/Framing/Doors.
--   client/pane/place.go          Client/Place, with chain.go in Client/Place/Crumbs; proofs in
--                                 Client/Place/Stacks and Projection.
--   client/pane/levels.go         Client/Levels; proofs in Client/Levels/Claims.
--   internal/subscription         Server/Sessions: the book of sessions; proofs in Server/Sessions/Steps
--                                 and Run.
--   internal/plugin/registry.go   Server/Registry; proofs in Server/Registry/Off.
--   internal/server               Server/Routing: resolve, route, refuseDisabled and the admission of
--                                 a delete, a copy and a select; proofs in Server/Routing/Answers,
--                                 Table and Refused.
--   client/cache/selection.go     Client/Selections, with the account of one tile in Owed; proofs in
--                                 Drawn, Followed, Answered, Grids, Tracked and Run.
--
-- A Go string is the list of its bytes (Base/Text, with the functions of package strings that the
-- source calls); strconv.ParseInt and encoding/base64 are written out in Codec, the decoder with its
-- skipping of CR and LF. An int64 that is only carried is the integer that it holds (Base/Integers),
-- a double its bit pattern. A function that returns (value, false) returns none.
-- A message in Wire has the fields that some modelled function reads, by name, and one field for the
-- encoding of the others; a nil message is none where the source lets one be nil. crypto/rand is a
-- record of draws below their bound (IdShape.Draws).
-- Fuel: the breadth-first search of Route runs on one round for each edge and two more, and
-- Rpc/Reach/Search shows that it ends by an answer within them; a hop limit is not negative there.
-- strings.TrimSpace runs on one round for each byte, and each round takes one off at least.
--
-- What a mutex guards is one step of the model, and interleavings are the lists of such steps that the
-- run theorems quantify over; a goroutine of the save queue is an element of its list of runs, and the
-- identity of a claim is its place in a heap. A pump or a loop that runs for itself is where it stands
-- between two places where it can wait, and a channel is its contents; a timer is the time from which
-- it may fire, in whole microseconds. An enqueue's send on wake, which comes
-- past its unlock, is a step of its own. A retry thunk, a pane's place in the tree and a float64 are
-- elements of a type that is a parameter, with a record of the operations that the code uses.
--
-- Not modelled: goroutines and locks where they only guard a map, gRPC and HTTP, SQL, canvas
-- drawing, floating-point geometry, process start and configuration files.
pub mod Base
pub mod Client
pub mod Codec
pub mod IdShape
pub mod Rpc
pub mod Server
pub mod Tests
pub mod Wire
