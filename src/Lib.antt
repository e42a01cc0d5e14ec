-- ===== src/Lib.antt =====
-- The telephony core of iziphone: what the call controller remembers of a live call, how it decides
-- what becomes of it, and how the softphone reads what it is told.
--
-- The controller (apps/call-controller) keeps one state per conversation in Redis. Webhooks of the
-- carrier, requests of softphones and the ringing of agents all change it the same way: read the
-- state, decide on a draft, write the draft if the state is still at the version that was read, and
-- decide again if it is not. A change answers with a result, on which the handler hangs up legs,
-- rings somebody else or tells the timeline.
--
-- Files, and the code that they model:
--   Prelude                   lists, dictionaries, options and tests that the modules share
--   Domain                    the enumerations (packages/dto/src/common/domain.ts and its neighbours)
--   CallState                 apps/call-controller/src/calls/call-state.ts: the state (CallState),
--                             its legs (leg_uuids_of, remove_leg) and whom it occupies (occupants_of,
--                             users_let_go); Legs and Occupancy are about these
--   CallControl               apps/call-controller/src/calls/call-control.ts: hold, transfer, cancel
--                             and hangup rules; Rules is about who is admitted
--   CallStore                 apps/call-controller/src/calls/telephony.service.ts: the store, the
--                             script and updateCallState; Writes is about other writers
--   CallFlow                  apps/call-controller/src/calls/call-flow.ts: the decision that each
--                             change of a call makes. Transfers, Answers, LegEnds, Teardown and
--                             Ringing hold the decisions; Writes makes a data type of them, with
--                             `apply` for one and `run` for a sequence, and the first states of calls;
--                             Invariant, Drafts, Continuity, Ownership and Ending are about sequences
--   Availability              apps/call-controller/src/realtime/availability-store.ts: the claims of
--                             calls on a user, script by script; Claims is about how long they hold.
--                             Offers holds availability-rule.ts and the offer of
--                             availability.service.ts (claimIfAvailable, offerCall); Offers/Taken is
--                             about the claim that an offer lands
--   Controller                apps/call-controller/src/calls/call-flow.ts and telephony.service.ts: the
--                             handlers whole. Effects is what they leave (hangups, claims, notices,
--                             events), Actions the monad they are written in, with what the outside
--                             answers as a parameter (Outside). Twilio holds the operations of the
--                             telephony service; Teardown, Transfers, Rings, Legs, Webhooks, Requests and
--                             Beginnings hold the handlers; Service puts them together to the life of a
--                             call. Requests/Declined is about a declined offer; Actions/Reports has a
--                             rule for each way to build an action, and Once applies them to every
--                             handler
--   Routing                   apps/call-controller/src/routing: opening hours, the plan of an inbound
--                             call, and the grants of outbound ones (calls/outbound-grant.ts).
--                             InboundPlan/Order says what is taken of the built-in sort
--   ParticipantStatus         apps/call-controller/src/calls/participant-status.ts
--   PhoneNumber               packages/dto/src/common/primitives.ts: normalizePhoneNumber
--   Softphone                 apps/web/src/lib/telephony: incoming-offer.ts and call-line.ts
--   History                   apps/api/src/calls/call-event-subscriber.ts: the rows and the timeline that
--                             the API keeps, from the events of the controller. Handlers holds
--                             what is done with each; Rows and Consistent are
--                             about the tables, Progress and Outcomes about a row over later events
--   Recordings                apps/api/src/calls/recording.service.ts, recording-copy.ts and the claims of
--                             retention.ts: copies, plays and deletions of one recording, as attempts
--                             whose steps interleave. Played, Deleted and Owed are about all schedules
--   Retention                 apps/api/src/calls/retention.ts and the expiries of
--                             retention-sweep.service.ts: policies and what a sweep deletes
--   Examples                  the theorems at concrete calls, stores and settings
--
-- How the code is read. Ids, names and texts are numbers (Text), compared as the code compares
-- strings; the blank string is 0, so that a test for truth is a test for it. A field that may be
-- undefined is an Option. A function that changes its draft in place returns the changed draft, in a
-- CallStateChange with the result and whether the state is to be removed. Records keyed by leg are
-- dictionaries in the order of insertion. Where a phone number is taken apart, it is the list of its
-- code points. Times of day are minutes since midnight, and instants are milliseconds.
--
-- Other writers are a parameter of updateCallState: what they do to the store between the read and
-- the write of each attempt. An attempt is counted on fuel, which is the ten attempts of the code: the
-- end of the fuel is the conflict that the code throws. JSON texts are compared as the values they
-- are of. Entries do not expire while a change is made.
--
-- A handler (Act) takes a World, which is the number of the next step, the store and the effects so far,
-- the latest first, to a result or an error and the world after it. An error that is thrown keeps what
-- was done before it, as in the code. At each step that reads or changes the call, others may have
-- changed the store (Outside.others); a change lands at one moment or gives up with the conflict, which
-- is what CallStore shows of updateCallState; every publication, claim and request of Twilio may throw.
-- Reads of the store do not throw, and voice is configured. Legs that the code hangs up or dials at once
-- are hung up or dialed in their order. What a handler leaves to the background (forwarding, the dial of
-- an outbound call) is a handler of its own, which may come at any time. The loop over the routing queue
-- is structural in the users left; claimIfAvailable runs on its five attempts.
--
-- The history takes the events one at a time, in the order of their writes to the row; an end and a
-- transfer come with the legs that they read of it before (ReadLegs), which may be any, since the
-- subscriber does not wait for an event before the next. Of the writes of an event, the first may fail,
-- or the entry of the timeline after it; what fails is dropped with its event. A field that is undefined
-- in an update of Prisma stays as it is, and one that is null is emptied.
--
-- An attempt on a recording (Attempt) is what it does next, with what it has read or claimed before; a
-- schedule is a list of moves, and a step that asks Twilio, the store or the database is told whether it
-- succeeds. Writes of the database are atomic with their guards. A deletion reads the row at most three
-- times, which is the count of the code.
--
-- A number that is dialed is spelled (Outside.characters), normalized as PhoneNumber does it, and made a
-- text again (Outside.text_of).
--
-- Parameters: the clock of a time zone (Intl), the built-in sort of lists, the naming of a conference,
-- what the outside answers, the ids that Twilio and the random generator give. Not modelled: the words of messages and TwiML, logging,
-- the times stamped on events, the timers that renew claims, the HTTP and socket handlers, the
-- rest of the API over its database, and the user interface.
pub mod Prelude
pub mod Domain
pub mod CallState
pub mod CallControl
pub mod CallStore
pub mod Availability
pub mod Routing
pub mod CallFlow
pub mod PhoneNumber
pub mod Softphone
pub mod ParticipantStatus
pub mod Controller
pub mod Recordings
pub mod Retention
pub mod History
pub mod Examples
