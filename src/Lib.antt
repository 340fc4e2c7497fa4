-- ===== src/Lib.antt =====
-- OrbitNet's core (native/crates/orbitnet-core), modelled and proved.
--
-- OrbitNet is a client-server netcode backend with rollback. A joining peer and the server exchange a
-- handshake and a challenge; from then on every datagram is authenticated and refused a second time,
-- and carries a frame: the server's snapshots of entity state, the client's input. An entity is named
-- on the wire by a dense slot, which the server allocates and a manifest frame tells the clients. On
-- both sides the states and inputs of past ticks stay in rings, late input marks ticks dirty, and the
-- planner decides from which tick each body is simulated again.
--
-- Base: what the modules share. Tests and orders of native numbers with Boolean answers, lists over
--   them, signed integers (Base.Int) and ordered maps (Base.OrdMap, a BTreeMap as the list of its
--   entries in key order), rows of bytes (Base.Rows), doubles as their bits (Base.Doubles) and the
--   rolling windows of the estimators (Base.Rolling).
-- History (native/crates/orbitnet-core/src/history.rs): Ring is TickRing, a vector of slots with the tick that each holds, written
--   by set_tick and read by get, earliest_tick and closest_at_or_before. Window is ResimRange and
--   DirtyWindow. Planner is ResimPlanner: mark, plan and what a plan costs.
-- Freshness (native/crates/orbitnet-core/src/freshness.rs): Ledger is FreshnessLedger, where set_confidence records how real a
--   tick's input is and begin_sim answers true for its first simulation with real input. Memo is
--   MemoRing.
-- Slots (native/crates/orbitnet-core/src/slots.rs): SlotTable with alloc, release and reconcile for the server, bind and unbind for
--   a client.
-- Seats (native/crates/orbitnet-core/src/seats.rs): SeatRoster, seats_of and
--   the diff that replace_into reports; the release rule.
-- Auth (native/crates/orbitnet-core/src/auth.rs): Window is ReplayWindow, Sip is SipHasher, Keys the labels and
--   the derivations of keys, nonces and tags, Exchange the key exchange, whose curve
--   is the parameter Curve, Budget is ReceiveBudget and
--   Session is SessionAuth with seal and open, whose cipher is the parameter Aead; the scratch buffer
--   that open fills is left out, the answer carries the payload. In Sip a byte is or-ed into a
--   clear place of the tail, which is a sum.
-- Wire (native/crates/orbitnet-core/src/codec.rs): Bytes is Writer and Reader, Mask its bit masks, Frame the header
--   of a frame, Block the state and input blocks behind it, Join the handshake with its checks, the
--   challenge, the welcome and the clock probes, Manifest the entity manifest, its deltas and the
--   interest frames, with diff_manifest and apply_manifest_delta in Manifest.Diff.
--
-- Schema (native/crates/orbitnet-core/src/protocol.rs): the properties of a row, SchemaBuilder and the hash that two peers compare.
-- Columnar (native/crates/orbitnet-core/src/columnar.rs): ColumnarHistory, the ring that holds the rows of an entity, and the mask
--   of the properties in which two rows differ.
-- Quant (native/crates/orbitnet-core/src/quant.rs): encode_row and decode_row, the masked forms write_masked_wire and
--   apply_masked_wire, and canonicalize_value, which settles a captured value. Half is binary16, Ss3 the
--   packed orientations.
-- Pacing (native/crates/orbitnet-core/src/pacing.rs): Slew is CoupledSlew and Lead is LeadTracker.
-- Priority (native/crates/orbitnet-core/src/priority.rs): the weights, the scores and the send order.
-- Clock (native/crates/orbitnet-core/src/clock.rs): ClockEstimator, with a panic of its sort as no answer.
-- Tick (native/crates/orbitnet-core/src/tick.rs): TickRate and TickAccumulator.
-- Interest (native/crates/orbitnet-core/src/interest.rs): PeerInterest, the entities that one seat holds, with
--   update_linear_into, which scans the candidates; Grid is InterestGrid with update_grid_into, which reads
--   the cells near a seat; Path measures the occupancy and selects between the two. Connection is
--   ConnectionInterest; both its updates are one, which takes what updates a seat as an argument. The scratch buffers, which each update clears, are left out. Candidates with one id twice
--   keep the order of the slice, which sort_unstable does not promise.
--
-- How the parts meet. A schema lays a row out; Columnar keeps the rows of past ticks, and its mask of
-- two rows is what Wire.Block writes in front of the values that Quant encodes. A join goes through
-- Wire.Join, whose check recomputes the tag that Auth.Keys derives from the secrets of Auth.Exchange.
-- Interest decides which entities a connection holds, Priority in which order they are sent.
--
-- How the code is read. A struct is a record, an enum a data type, a method that changes its object a
-- function that returns the new object beside its result. Unsigned integers are numbers, with their
-- saturation and their wrap-around written out where the code has them. A BTreeMap is an ordered list
-- of entries; a u64 that serves as a set of bits is the list of its bits; a float is the number
-- of its bits. Comparisons of doubles and the conversions with binary16 are exact on the bits; the other
-- arithmetic of floats is a parameter, Float in Quant.Ss3 for f32, Double in Base.Doubles for f64 and
-- Measures in Interest.Path where the two mix. A writer is what it appends, a reader a function from
-- the bytes after its cursor to a value and the bytes left, or an error; a read that fails leaves the cursor where it was. The
-- writer's varint loop runs at most ten rounds, enough for 64 bits; the ring's searches run over at
-- most a capacity of ticks; every other loop is structural.
--
-- Not modelled: the Godot binding (native/crates/orbitnet-godot), which calls the engine, and the pools in
-- which the grid keeps its storage.
pub mod Base
pub mod History
pub mod Freshness
pub mod Slots
pub mod Wire
pub mod Auth
pub mod Seats
pub mod Schema
pub mod Quant
pub mod Columnar
pub mod Pacing
pub mod Priority
pub mod Clock
pub mod Tick
pub mod Interest
