-- ===== src/Lib.antt =====
-- kwmbridge: a model of the bridge between kwm servers and WebRTC clients, with its theorems.
--
-- The program connects to the MCU API of kwm servers. For each transaction that a server attaches
-- it starts a plugin, the selective forwarding unit of one channel (rtmcsfu), which holds a
-- connection record for each stream between the unit and a user, and forwards tracks from senders
-- to receivers through a jitter buffer. An HTTP API shows the clients and the attached plugins.
--
-- Files, by the code that they model:
--   Base: shared names, Boolean tests, byte strings (Text), dictionaries and bits.
--   JitterBuffer.Packet, Buffer, Rates: internal/jitterbuffer/buffer.go. `pktBuffer` is a function
--     from sequence numbers; words are natural numbers with `%` at their width. `clear_loop` has
--     fuel 65536, one round for each slot, which is enough for every packet that Push stores.
--   JitterBuffer.Registry: internal/jitterbuffer/jitterbuffer.go. `sync.Map` is an association
--     list, and the goroutines of the loops are functions of the events that they wait for.
--   Utils: internal/kwm/utils/utils.go; Utils.Sdp: internal/kwm/mcu/plugins/rtmcsfu/utils.go.
--   Sfu.Types, Sfu.Connection: internal/kwm/mcu/plugins/rtmcsfu/connectionrecord.go. A method is a
--     function on the record, with an outcome where it may fail; `log` holds the messages sent and
--     the other effects, in order. Each runs under the record's lock, as one step.
--     Sfu.Connection.Negotiation has createOffer, negotiate and the handler of the state stable;
--     Transceivers has addTransceiver and createAnswer; Tracks has addTrack and removeTrack; Peer
--     has createPeerConnection and the handlers that it installs; Ice the handler of candidates and
--     the watcher. Protocol, Requests, Runs, Queue, Reset, Binding and Matched prove what holds of
--     them; Runs has the sequences of events. Incoming has the handler of OnTrack with what the end
--     of a track does; Publishing and Ended prove what holds of it. Sfu.Connection.Signal and
--     Handler: what handleWebRTCSignalMessage of channel.go does with one connection record; where
--     it lets go of the record's lock, an argument `others` says what the record is changed to.
--     Answers, Signals and Offers prove what holds of it.
--   Sfu.Incoming: what the handlers of OnTrack of connectionrecord.go and p2precord.go share: the
--     reader of the receivers' RTCP packets, with the resends from the jitter buffer; Pump has the
--     goroutines that take the packets of a track, over a list of reads, and Jitter the jitter
--     buffers that the records start. Resending and Pumping prove what holds of them.
--   Sfu.Steps: the chains of calls that may fail, for connection and peer to peer records.
--   Sfu.Users: internal/kwm/mcu/plugins/rtmcsfu/userrecord.go and the hangups of channel.go. What a
--     close leaves to a goroutine is part of its step.
--   Sfu.Channel: the rest of internal/kwm/mcu/plugins/rtmcsfu/channel.go. Messages has the way of a
--     signal to the connection record of its source, and the answer to a call; Workers has the two
--     workers, each round as one step; Forwarding has the way of a packet to the receivers of its
--     track. Senders, Hangups, Removal, Adding and Filling prove what holds of the former,
--     Delivery, Pumping and Lives what holds of the latter.
--   Sfu.Plugin: internal/kwm/mcu/plugins/rtmcsfu/rtmcsfu.go, over a list of reads of the websocket,
--     with the checks of NewChannel and Stop of channel.go. Pump and Stopping have its theorems;
--     Settings has what New asks of pion for a configuration.
--   Sfu.P2p: internal/kwm/mcu/plugins/rtmcsfu/p2precord.go, divided as Sfu.Connection is, and what
--     the workers of the channel and the packets of tracks do for its records: Workers and
--     Forwarding, with Removal, Delivery and Lives. Sfu.P2p.Controller, Announcing and Dispatch:
--     internal/kwm/mcu/plugins/rtmcsfu/p2controller.go and streamrecord.go. Controller.Scans,
--     Controller.Streams, Handshake, Silence, Stages and Silences have the theorems.
--   Sfu.Http: internal/kwm/mcu/plugins/rtmcsfu/http.go. Resources of connections hold one another
--     by their pending tracks; the fuel is the depth of that nesting, and Depth shows that it is
--     enough where it is more than a rank that falls from a connection to those it waits for.
--   Sfu.Negotiator: the phases of a negotiation, and the records that go through them.
--   Mcu.Client, Mcu.Resource: internal/kwm/mcu/client.go and models.go. What the websocket delivers
--     is a list of reads, each with one round of the read pump, and of the ends of plugins between
--     them.
--   Bridge.Api, Bridge.Clients: bridge/mcuc/http.go, bridge/api-v0 and bridge/odata. A handler
--     gives the status and the bodies that it writes, or a panic.
--   Bridge.Manager, Bridge.Reconnects: bridge/mcuc/manager.go and NewClient of
--     internal/kwm/client.go. The goroutine of a client is a function of what each attempt gives.
--   The modules named Tests have runs and instances of the theorems.
--
-- Calls of pion/webrtc, websockets, net/url and randomness are fields of a record `Outside`, which
-- the definitions take; those of a message's handler, and encoding/json, are fields of `Remote`,
-- `Json` and `P2pJson`; floating-point numbers are the fields of `Float64`. Nothing is assumed of
-- them unless a theorem has it as a hypothesis.
--
-- Not modelled: the wait of createAnswer for the end of the ICE gathering, which changes nothing;
-- the server, its commands, logging, JSON text and HTTP routing, which are input and output; the
-- capacity of Go channels other than `needsNegotiation` (run_track takes whether what it sends to
-- has room); interleavings inside a method that holds its lock, and those of the goroutines that
-- have the same packet.
pub mod Base
pub mod JitterBuffer
pub mod Utils
pub mod Sfu
pub mod Mcu
pub mod Bridge
