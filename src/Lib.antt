-- ===== src/Lib.antt =====
-- The payment core of fcr, a network of peers that pay each other through payment channels.
--
-- A peer that wants to pay reserves an amount on one of its outbound channels (Reserve), pays it in
-- portions by vouchers (Pay), and each peer on the way receives vouchers on an inbound channel
-- (Receive) before it pays on. An offer of the next hop has a price: `ppp` is charged for each started
-- period of the petty amount. The payment manager keeps a cached state for each channel. Per-channel
-- policies are kept in a multi-dimensional store by managers such as the settlement manager.
--
-- - Base: numbers, maps as association lists, sums over them, and the outcome of a Go call (Result: a
--   value, an error or a panic). ℤ is the integer of math/big with its Euclidean division.
-- - Paychstate: State of paychstate/state.go.
-- - Paymgr.Price: calculatePettyAmountToReceive and calculateGrossAmountToPay of paymgr/utils.go, the
--   rest of which is Paymgr.Expiry. Paymgr.Types: paymgr/types.go, with PayOffer of
--   fcroffer/payoffer.go and the calls of trans/transactor.go as a record of functions.
-- - Paymgr.Reserve, Paymgr.Outbound, Paymgr.Inbound: Reserve, Pay and Receive of
--   paymgr/paymentmgr_impl.go. Paymgr.Channels: AddInboundChannel, RetireInboundChannel,
--   AddOutboundChannel, RetireOutboundChannel, UpdateOutboundChannelBalance and BearNetworkLoss.
-- - Paymgr.Sound: the invariant of a channel and the steps that keep it, and the manager's.
--   Paymgr.Coverage: what a reservation pays for. Paymgr.Relay: the inbound rate. Paymgr.Receiving:
--   the receiver's checks and the two ends of a channel. Paymgr.Reserving: Reserve as a whole.
--   Paymgr.Apart: one channel's operations leave the others. Examples: tests and concrete runs.
-- - Locking: the lock tree of locking/locknode.go, and which calls keep each other out.
-- - Mdlstore: the transaction of mdlstore/mdlockablestore_impl.go on a map from paths to nodes. Its
--   children Frame and Removal are on Put and Delete, Pairs and Triples on values at a fixed level.
-- - Policies: what the three policy managers share. Its Target is the places of policies in the store,
--   Refine and History the abstract view, a function from places to policies. Settlemgr, Reservmgr and
--   Renewmgr: settlemgr/settlemgr_impl.go, reservmgr/reservmgr_impl.go and renewmgr/renewmgr_impl.go.
-- - Routestore: routestore/routestore_impl.go and the clean routine of routestore/routines.go;
--   Routestore.Table: the routes of one link, with routestore/utils.go. Its other children: Trim, Links
--   and Prefixes are lemmas, Calls and Valid sequences of calls, Added, Listing, Removed and Clean what
--   is listed.
-- - Pservmgr, Cservmgr, Substore, Offermgr: pservmgr/pservmgr_impl.go, cservmgr/cservmgr_impl.go,
--   substore/substore_impl.go and offermgr/offermgr_impl.go. Paychstore and Peermgr:
--   paychstore/paychstore_impl.go and peermgr/peermgr_impl.go.
-- - Paychmon: paychmon/paychmon_impl.go and paychmon/routines.go as steps in any order. Its children:
--   Cache, Steps, Matched and Invariant with Reached, Jam with Deadlock.
-- - Payproto: paynet/protos/payproto/requesters.go, Payproto.Handlers its handlers.go. Receipts, Traces
--   and Handled are on one side of a payment, Forwarded, Direct and Loss on both, with paymgr/ below.
-- - Fcroffer: fcroffer/payoffer.go, with Paych and Piece for paychoffer.go and pieceoffer.go. Survive: the
--   wire. Offerproto: paynet/protos/offerproto/requesters.go, its Handlers handlers.go. Checked, Served
--   and Accepted: the requester's checks, the handler's and the two together. Relay: the price of a hop
--   between Reserve and the requester.
--
-- Locks are modelled by what they allow: an operation that checks under a read lock and again under a
-- write lock takes two states, between which others may have run, and what is done under one write
-- lock is one step. Pay and Receive keep the write lock until their commit or revert. Reserve's
-- goroutines are a list of turns in the order of their write locks.
--
-- Time is a count of nanoseconds, 0 for the zero time, and is an argument wherever the code asks the
-- clock; a loop over the reservations takes one reading. Nonces are uint64 and wrap around (u64).
-- Amounts are unbounded, as in the code. No function needs fuel: each recursion is on a list or a number. Error
-- texts are shortened to their constant part; logging and the order of map iteration are left out.
-- The transactor, the texts of durations, amounts and routes, JSON and the test for a separator are
-- parameters.
--
-- Not modelled: the background routines of the payment manager, the waiting for locks (but for the calls
-- that the channel monitor keeps waiting), JSON, keys and signatures, the sorted history of peers, the
-- network protocols other than those of payments and their offers, block stores and retrieval, and the user
-- interfaces. A big.Int that is nil, what Go does after a panic, and the turning of a stored currency's text
-- back into a byte at a manager's start are left out too.
pub mod Base
pub mod Offerproto
pub mod Paychmon
pub mod Payproto
pub mod Paychstate
pub mod Fcroffer
pub mod Locking
pub mod Mdlstore
pub mod Policies
pub mod Reservmgr
pub mod Renewmgr
pub mod Routestore
pub mod Substore
pub mod Paychstore
pub mod Cservmgr
pub mod Pservmgr
pub mod Offermgr
pub mod Peermgr
pub mod Settlemgr
pub mod Paymgr
