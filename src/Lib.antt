-- ===== src/Lib.antt =====
-- conference.go, a conference server of several nodes. The sockets of a node join rooms and register
-- callbacks for patterns of rooms; messages are addressed to a room, run the callbacks of the node
-- that emits them, and travel over Kafka to the other nodes, which run theirs.
--
-- The parts, and the files that model them:
--
-- - Room: signal/utils.go, `CheckPattern`, `CheckRoom`, `MatchRoom`, `matchRoom`. A text is split at
--   its dots (`split`); `match_parts` is the recursive matcher on the parts, by fuel. A round of the
--   loop or a call reads at least one part of the pattern, so that the number of its parts is fuel
--   enough; an index out of range is the panic `index`. Room/Matches has the
--   relation `Matches` that says what a pattern means, Room/Decision compares the matcher with it, and
--   Room/Syntax says what texts are accepted.
-- - PatternMap: signal/utils.go, `PatternTree` and `PatternMap`. A tree node is its datum, if it has
--   one, with its children by name. `update_pattern_data` is `UpdatePatternData`: `descend` creates
--   the path and runs the mapper, `remove_pattern_data` clears it when the mapper asks for that.
--   `collect_room` is `Collect`. PatternMap/Paths reads a tree along a path (`data_in`),
--   PatternMap/Removal and PatternMap/Update say how it changes, PatternMap/Hits and
--   PatternMap/Collect follow the collection through the tree and PatternMap/Rooms concludes for rooms.
-- - Proto: proto/message.proto, the types of the messages.
-- - Message: proto/message.ext.go, `FixRouter`, `CopyPlain`, `GetRoom`; Message/Client has `ToMap` and
--   `ToClientMessage`. The ten copies of each method are the clauses of one function.
-- - Messager: signal/messager.go. The ten kinds of messages have one topic each, and the methods that
--   the source writes once for each kind are one function of the topic (`on_topic` for `OnState` and
--   so on, `on_record` for `onTopicState`). The state is the node's name and a pattern map of callback
--   boxes for each topic. Callbacks are values of a type that the model does not look into: `consume`
--   returns those that run, under their `funId`. Messager/Emission is `Emit`, up to the record that is
--   handed to protobuf and Kafka. Messager/Registry says what stands under a pattern,
--   Messager/Delivery which callbacks run, Messager/Session joins the two, and
--   Messager/History follows sequences of calls.
-- - Publication: model/pattern.go. `validate` is `Validate`, `match_pattern` is `Match`, whose loops over
--   arguments and children are `each_pair`, `each_name` and `match_children`; an argument that is not
--   there is the panic `index`. Publication/Selection says which tracks a pattern selects,
--   Publication/Validity which patterns are well formed.
--   Publication/Tracks is `MatchTracks`; the order in which Go iterates over its map is a parameter.
-- - Context: signal/model.go, the rooms of a `SignalContext`: `join_room` is `JoinRoom`, `leave_room` is
--   `LeaveRoom`, `cluster_emit` is `clusterEmit`. Go's map holds `RoomInfo` values, and what the code
--   changes in a copy is not stored. Context/Rights has the errors, Context/Joins follows a session,
--   Context/Announcements is about what a join emits, and
--   Context/Handlers has the handlers that pass messages on to the client (`OnPingMessage` and so on),
--   of which Context/Gate says what they pass.
-- - Participants: client/websocket.go, `Participants`: joins and leaves that may come late.
--   Participants/Known follows one key, Participants/Newest any messages; Participants/Box is
--   `ParticipantsBox`, where Participants/Box/Rooms keeps rooms apart.
-- - Frames: websocket/signal.go, `encodeWsTextData` and `decodeWsTextData`, on lists of bytes. A number of
--   64 bits has at most 20 decimal digits, the fuel of `format`. Frames/Numerals says what a numeral denotes,
--   Frames/Digits reads what was printed, Frames/RoundTrip is about whole texts.
-- - Socket: websocket/signal.go, `WebSocketSignal`: the table of requests that wait for an answer, the
--   handler of texts (`on_text`) and, in Socket/Requests, `SendMsg`. JSON is the record `Json`; a channel
--   is an identity, and what is sent to it an effect. Socket/Replies composes the two ends of a
--   connection, Socket/Once follows what happens to one end.
-- - Packets: signal/router.go, the packets between nodes byte by byte, in buffers that are written in
--   place (Packets/Buffers); Packets/Tracks and Packets/Setup read back what was made.
-- - Router: signal/router.go, `Router` and `Accepter`: the steps of its loops over UDP (`on_setup`, `route`,
--   `receive`), `PublishTrack`, `AcceptTrack`, whose loop runs on fuel, and the count of references. `Maker` is what `NewAccepter` needs of
--   the packages uuid and webrtc.
--   Router/Relay composes two nodes, Router/Lifetime is about the count and the loop.
-- - Protocol: model/messages.go, the methods `Validate` of the requests to publish and to subscribe, with
--   Protocol/Requests, and model/common.go, the conversions of codec parameters, with Protocol/Codecs.
-- - Transceivers: signal/model.go, how a transceiver of a WebRTC connection is named to the client
--   (`getMidFromSender`) and found again (`findTracksRemoteByMidAndRid`), with Transceivers/Naming.
-- - Subscription: signal/model.go, `Subscription` with the router of its node. The WebRTC connection is the
--   record `Peer`; `accept_state` is `AcceptTrack`, whose wait for an accepter is one round of the
--   router's loop, since another round never helps. Subscription/Accepting and Subscription/Updates
--   say which tracks are held after a state and a new pattern, Subscription/Closing is about `Close`, and
--   Subscription/Runs follows a subscription while others use the same router.
-- - Publisher: signal/model.go, `Publication` and `PublishedTrack`: `bind_track` is `Bind`, `consumes` and
--   `on_rtp_packet` are the two parts of `OnRTPPacket`, `forward` is the consumer that `SatifySelect`
--   makes. Publisher/Consumers is about the reader of a track, Publisher/Delivery goes from a selection
--   through Router and Packets to the other node, and Publisher/Ends is about the packet at the end.
-- - Signaling: signal/model.go, the rest of a `SignalContext`: `publish` is `Publish`, `subscribe` is
--   `Subscribe`, whose loops that draw a UUID run on fuel, one round more than the map has entries;
--   `state_want` is `StateWant`. Signaling/Reactions has `AcceptTrack`, `SatifySelect`, `SelfClose` and
--   `_emit`; Signaling/Requests is about a publication that is added and Signaling/Silence about a
--   session that is closed. The functions of a session use Context, Messager, Subscription and Publisher.
-- - Client: client/websocket.go, `WebsocketSignal`: `send_message` is `SendMessage` up to its wait, `on_custom`
--   and `on_custom_ack` are the handlers that `accessSignal` registers; `run_cbs` and `add_event_callback` are
--   `MsgCbs` of signal/signal.go. Client/Answers follows a question through the servers to another client
--   and back,
--   Client/Callbacks compares the two ways in which callbacks are kept, and Client/Pings has
--   the channels for pings.
-- - Global: signal/global.go, the registry of a node's sessions by id and by user. Global/Index and
--   Global/Closing show how each operation keeps the two maps together, Global/Sessions follows any changes.
-- - Maps: Go's maps with texts as keys, and Maps/Keyed with other keys.
-- - Collection: utils/collection.go, searches in slices, and maps and removals, which work on a copy
--   or within the array that they read; Collection/Unordered is the removal that fills gaps from the end.
-- - Common: tests, lists measured by native numbers, and `Result`, Go code that may panic. Samples:
--   runs at concrete inputs.
--
-- A Go map is an association list, and nothing that is shown depends on its order but which of two
-- callbacks of one `funId` under two patterns is taken. A mutex makes an operation one step. What is
-- logged is left out.
--
-- Not modelled: the transports (Kafka, Redis, the connections of web sockets and UDP), recording, the
-- negotiation of WebRTC sessions, configuration, authentication, and of the clients what waits on timers (`KeepAlive`,
-- `WaitParticipant`); pkg/samplebuilder and
-- the DTS extractor of pkg/segmenter, which are copies of other projects' code, and pkg/mpd, which is
-- generated; `RawData`, a dump for debugging; a null among the children of a pattern.
pub mod Common
pub mod Maps
pub mod Room
pub mod PatternMap
pub mod Proto
pub mod Collection
pub mod Message
pub mod Messager
pub mod Publication
pub mod Participants
pub mod Frames
pub mod Socket
pub mod Packets
pub mod Router
pub mod Context
pub mod Protocol
pub mod Transceivers
pub mod Subscription
pub mod Publisher
pub mod Signaling
pub mod Client
pub mod Global
mod Samples
