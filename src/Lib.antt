-- ===== src/Lib.antt =====
-- Media Bridge: a gate between a client and a language model. A request with images or PDF files is
-- decided on before any model is called: a text-only model is given sanitized text in place of media, a
-- model that is verified for it is given the original PDF, and whatever cannot be decided is blocked.
--
-- The parts, and the files that model them (paths from the repository's root):
--
--   media_bridge/contracts.py      Contracts (records, and what their constraints accept),
--                                  Contracts/Dump (`model_dump`, over the JSON values of Json)
--   media_bridge/capabilities.py   Capability, Capability/Modalities (sets of modalities); with it
--   media_bridge/detector.py       `detect_media`; Capability/Resolve has the theorems
--   media_bridge/receipts.py       Receipts, Receipts/Padding; theorems in Receipts/Roundtrip (what was
--                                  signed) and Receipts/Accepted (what is accepted)
--   media_bridge/gate.py           Gate/Effects (calls to the collaborators and their history),
--                                  Gate/Context (`extract_context`), Gate (`prepare_for_model`);
--                                  theorems in Gate/Cleanup, Gate/Decision and Gate/Safety
--   media_bridge/router.py         Router (`GuardedDownstream`, `RouterAdapter`, and the state of a
--                                  follow-up); theorems in Router/Guard, Router/Invoke and Router/FollowUp
--   media_bridge_gateway/state.py  State/Entries (the ordered dictionary), State/Identifiers,
--                                  State/Gateway (`GatewayStateStore`); theorems in State/Isolation and
--                                  State/Retention
--   media_bridge/responses_state.py
--                                  State/Legacy (`ResponsesStateStore`, and the adapter over it of
--                                  media_bridge_gateway/state.py)
--   media_bridge/idempotency.py    Idempotency (`IdempotencyStore`); theorems in Idempotency/Trim (what is
--                                  evicted) and Idempotency/Once
--   media_bridge/reasoning.py      Reasoning (the table of verified efforts and the fields of a provider's
--                                  request, over a parameter `casefold`); theorem in Reasoning/Answers
--   media_bridge/openai_responses.py
--                                  Responses, with a module for each stage of a request's normalization;
--                                  theorems in Responses/Locators (data URIs), Responses/Nested (media in
--                                  JSON), Responses/Accepted (what is normalized) and Responses/Sources (where
--                                  media may come from)
--   media_bridge_gateway/transaction.py, media_bridge_gateway/contracts.py
--                                  Transaction/Contracts, Transaction/Payload (what is sent),
--                                  Transaction/Seal and Transaction/Invoke (`GatewayTransaction`); theorems in
--                                  Transaction/Keeps (the store), Transaction/Sent (what the provider gets),
--                                  Transaction/Kept (what is stored) and Transaction/Stored (what a follow-up
--                                  finds)
--   media_bridge_gateway/rate_limit.py
--                                  RateLimit (`CredentialRouteRateLimiter`, in whole units of tokens and of
--                                  time); theorems in RateLimit/Spends (what it keeps) and RateLimit/Grants
--                                  (what a call takes)
--   media_bridge_gateway/hops.py   Hops (`advance_hop`, over `HopMetadata` of media_bridge/contracts_v2.py);
--                                  theorem in Hops/Budget (a route comes to its end)
--   media_bridge_gateway/auth.py   Auth (`SnapshotCredentialVerifier`); theorems in Auth/Accepted (whose
--                                  credential is in order) and Auth/Subjects (whose subject is made)
--   media_bridge/contracts_v2.py   Interop; with it media_bridge/interop_v2.py (Interop/Receipts),
--                                  `V2ResponsibilityRouter` (Interop/Route), the messages for a provider of
--                                  media_bridge_gateway/hops.py (Interop/Wire) and `V2PreparationTransaction`
--                                  (Interop/Prepare); theorems in Interop/Barrier, Interop/Decides,
--                                  Interop/External and Interop/Evidence
--   media_bridge/assets.py         Assets (`AssetStore`, over a file system that answers by the history of the
--                                  calls on it); theorems in Assets/Purged, Assets/Consumed and Assets/Once
--   media_bridge/openai_chat.py, its stream of chunks
--                                  ChatStream; theorems in ChatStream/Shapes (what is yielded),
--                                  ChatStream/Drained (the inner loop's fuel) and ChatStream/Ends. UTF-8,
--                                  splitlines, the JSON reader and writer and the clock are parameters.
-- Base has what all of them share: lists and texts with native lengths, Boolean tests, and `Result`, a
-- call that returns or raises. Tests applies the theorems to a small installation.
--
-- How they interact: `PreRequestGate.prepare_for_model` (`Gate.prepare_for_model`) asks the registry
-- (`Capability.resolve`), converts media through its collaborators, and has its payload signed
-- (`Receipts.sign`). `RouterAdapter.invoke` (`Router.invoke`) hands the payload to
-- `GuardedDownstream.invoke` (`Router.guard`, `Router.send`), which verifies the receipt before the
-- provider is called. The gateway keeps the sanitized text of a response in its store for follow-ups:
-- `GatewayTransaction.invoke` (`Transaction.Invoke.invoke`) looks the named response up, normalizes the
-- request (`Responses.Normalize.normalize_responses_request`), asks for the policy on tainted state, runs
-- the gate, seals what it prepared, calls the downstream, and stores the state of the response.
--
-- How the code is modelled:
--
--   - A method that can raise returns `Result E A`, with the exceptions of its file as values of `E`.
--   - The gate's methods are in the monad `Call`: a value or an exception, and the history of the calls
--     made. What is no `Exception`, such as a cancellation, is the exception `interrupted`, which the clauses
--     for an `Exception` let pass. A collaborator is a function of that history, so it may answer differently at every call. The
--     coroutines of one request run in order. A call is recorded when it is made; the creation of a
--     workspace when it exists, its deletion when it is tried and again when it is verified.
--   - HMAC, SHA-256, base64, `json.dumps` and `json.loads`, acquisition, OCR, the vision backend, PDF
--     rendering and the sanitizer are parameters (`Codec`, `GateParts`, `Services`). Where a theorem
--     relies on base64 or on JSON, `Receipts.Roundtrip.Base64` and a named hypothesis state what is
--     documented for the bytes at hand.
--   - A time is a natural number, and so is an amount of the rate limiter's tokens. The clock of the
--     capabilities and that of the receipts are arguments. Only a snapshot's deadline may be without a time
--     zone (`Deadline`), which makes its comparison an error.
--   - A transaction is a step on a world of the state store, the requests sent and the history of the gate:
--     it goes on with a value, returns early, or lets an exception escape. The downstream, the digest of
--     JSON, `urlsplit` and `str.lower` are parameters (`Gateway`, `Web`); `Moment` has the clock's reading
--     at each of its steps and its nonce. A stream is its chunks and whether it comes to its end.
--   - A set of modalities is its three memberships. A dictionary that keeps its order is a list, oldest
--     entry first.
--   - A `ValidationError` that the code lets escape is the exception `other`.
--
-- Loops are structural recursion over the lists that the code loops over. Two have fuel: in
-- `Idempotency.trim` every round deletes an entry, so their number is enough (`length-trim-le`), and in
-- `ChatStream.drain` every event takes two characters at least from the buffer, so its length is enough
-- (`feed-IsDrained` of ChatStream/Drained). Numbers are printed with fuel for their digits (`Base.show`).
--
-- Not modelled: HTTP servers, process supervision, databases, the web console and deployment scripts, which
-- are input and output. Regular expressions are written out as tests of characters.
pub mod Base
pub mod Json
pub mod Contracts
pub mod Capability
pub mod Receipts
pub mod Gate
pub mod Responses
pub mod ChatStream
pub mod Router
pub mod State
pub mod Idempotency
pub mod Reasoning
pub mod RateLimit
pub mod Assets
pub mod Auth
pub mod Hops
pub mod Interop
pub mod Transaction
pub mod Tests
