-- ===== src/Lib.antt =====
-- Ekaette is a multimodal customer service agent for shops: customers talk to it by phone, by
-- WhatsApp and on the web. app/ holds the FastAPI backend (main.py and the routers under
-- app/api/v1, the agents under app/agents and the tools they call under app/tools), sip_bridge/
-- carries calls between SIP and the model's live audio, shared/ holds what both use. Requests
-- reach a router, which authenticates and limits them, makes the mutating ones idempotent and
-- calls services; a conversation runs an agent, which calls tools; the bridge feeds the
-- conversation with audio. This library models the deterministic cores of these parts and proves
-- what they promise.
--
-- Files, by the part that they model:
-- - Gate.antt, Gate/Traces.antt: what both idempotency stores promise, as a record of operations
--   and laws (Gate), and what follows from it over any sequence of calls. No code of its own.
-- - At/Idempotency.antt, with Laws, Contract and Expiry: app/api/v1/at/idempotency.py,
--   idempotency_preflight and idempotency_commit. The store is a dict from a text key to an entry;
--   the answers raised as HTTPException are the constructors payload_mismatch and in_progress, the
--   returned dict is replay, the returned None is proceed. Hashing the payload is a parameter.
-- - At/Callbacks.antt, with Refinement: is_duplicate_callback of that file, with its table of seen
--   callbacks.
-- - Admin/Idempotency.antt, with Memory and Contract: the in-memory store of
--   app/api/v1/admin/idempotency.py (_idempotency_memory_begin_with_key,
--   _idempotency_memory_record, _idempotency_prune).
-- - At/ServiceAuth.antt, with Nonces and Replay: verify_service_auth and _check_nonce of
--   app/api/v1/at/wa_security.py, with the nonces kept in the process. The clock is read for the
--   timestamp, and again for the nonce once the body has come.
-- - At/Webhooks.antt, with Guards: verify_wa_webhook and verify_cloud_tasks_oidc of that file, and
--   verify_at_webhook of app/api/v1/at/security.py.
-- - At/CampaignAnalytics.antt, with Operations, Directory, Scope, Once and Phones:
--   app/api/v1/at/campaign_analytics.py. The four module-level tables are one record;
--   _ensure_campaign and the change of the campaign that it returns are an insertion in the table.
-- - Public/RateLimit.antt, with Recent, Refinement and Traffic: check_rate_limit of
--   app/api/v1/public/core_helpers.py, which the webhooks call (At uses Public, and At/Webhooks
--   the digest comparison of At/ServiceAuth).
-- - Admin/Connectors.antt, with Circuit and Lock: the circuit breaker and the locks of connector
--   tests of app/api/v1/admin/policy.py, as they are kept in the process.
-- - Agents/Policy.antt, with Known: app/configs/agent_policy.py, which agents a session has.
--   Agents/Dedup.antt, with Cooldown: dedup_before_agent of app/agents/dedup.py.
--   Agents/Telemetry.antt, with Once: telemetry_after_agent of that file.
-- - Agents/Messages.antt, with Results and Numbering, and Agents/Guards.antt, with Isolation,
--   Trace and Heard: the callbacks of app/agents/callbacks.py around tools and before an agent.
--   The session's state is a record of the entries that the guards read and of the temp: keys that
--   the callbacks write. A step of Trace is one call that the agent framework makes; the guards
--   use Agents/Policy and Agents/Dedup.
-- - SipBridge/Dialog.antt, with Headers and Transaction: parse_sip_request, build_sdp_answer and
--   build_sip_response of sip_bridge/sip_dialog.py, and parse_sip_response of
--   sip_bridge/sip_register.py. int() of a text and the digits of a number are parameters.
-- - SipBridge/Challenge.antt, with Parts and Params: parse_challenge of sip_bridge/sip_auth.py;
--   the regular expressions are written out as functions. SipBridge/Digest.antt, with Header,
--   Reads, Carried, RoundTrip and Sessions: the other functions of that file, with the hashes as
--   parameters and the random nonces as arguments.
-- - SipBridge/Register.antt, with Sequence, Computes, Sent and Challenged: SIPRegistrar of
--   sip_bridge/sip_register.py, and the calls that sip_bridge/server.py makes of it. A datagram
--   that is sent is the request that it is the text of; the answer of the name lookup is an
--   argument.
-- - Shared/PhoneIdentity.antt: shared/phone_identity.py, with the library of phone numbers as one
--   parameter and the keyed hash as another.
-- - SipBridge/Dialog/Sdp.antt: parse_sdp_g711 of sip_bridge/sip_dialog.py. SipBridge/Caller.antt,
--   and SipBridge/Server.antt with Tracked, Stopped and Escaped: SIPServer and SIPProtocol of
--   sip_bridge/server.py. The server's state is the table of sessions, the tasks that run, and the
--   numbers of the sessions whose shutdown was called; a datagram is one step, and so is the end
--   of a task. Responses to the registration are in SipBridge/Register.
-- - Public/WsAuth.antt, with Used and SingleUse: app/api/v1/public/ws_auth.py. The table of used
--   tokens is an argument; the keyed hash, base64 and JSON are parameters, and a token is checked
--   at one reading of the clock and the table pruned at a later one.
-- - Tools/ScopedQueries.antt, with Scoped: app/tools/scoped_queries.py. A collection is its path;
--   the state is that of Agents/Policy.
-- - Tools/Shipping: app/tools/shipping_tools.py. Records has an order and the texts that the tools
--   clean, Store where the orders stand, Create, Review, Update and Track the four tools on
--   orders, Fetch what Topship answers about a shipment, Rates and Quotes the delivery quotes.
--   Notices, Once, Events, Stored, Followed, Sound, Late, Lowest and Offers are proofs. An order's
--   place is its key in _order_records or the path of its document, with the scope of
--   Tools/ScopedQueries; a call finds its clock, its client and how its messages end in a Context,
--   and a message that a provider takes goes to the outbox. A write of a record does not fail. A
--   run is any sequence of calls of the four tools, one after the other; only Late looks at a
--   request during which the stored order changes. str.lower, str.upper, the digits of Unicode and
--   str of a JSON value that is no text are parameters. The amount in naira, a rounded float, the
--   texts of the errors and the weight, which only goes into the request, are left out.
-- - At/Payments: app/api/v1/at/service_payments.py, and the webhook of app/api/v1/at/payments.py.
--   Records has the tables and their records, JSON objects, Accounts the context of a charge,
--   Gateway the processing of an event, Create the checkout, VirtualAccounts the virtual account,
--   Webhook the signature, the verification and any calls; Reported, Counted, Paid and Signed are
--   proofs. The analytics are those of At/CampaignAnalytics, and each record_event is a Report of
--   its Once. The answers of Paystack are arguments; a clock gives the times and the ids that
--   would be drawn.
-- - SipBridge/Rtp.antt, with RoundTrip: sip_bridge/rtp.py, RTPPacket.parse and serialize.
-- - SipBridge/Pcm.antt, with RoundTrip: the packing of 16-bit samples that the codecs call.
-- - SipBridge/AudioCodec.antt, with Ulaw, Resample, Alaw and Bridge: sip_bridge/audio_codec.py and
--   the G711CodecBridge of sip_bridge/codec_bridge.py.
-- - Tools/Double.antt, with Accuracy: Python's product of an integer and a float, by exact
--   rounding to 53 bits.
-- - Tools/Negotiation.antt, Tools/Answers.antt, Tools/Grading.antt, Tools/Questionnaire.antt,
--   Tools/TradeIn.antt, each with its Laws: app/tools/valuation_tools.py (process_negotiation;
--   _coerce_bool and _parse_battery; adjust_grade_from_questionnaire; get_device_questionnaire and
--   normalize_questionnaire_answers; calculate_trade_in_value).
-- - Dict.antt: a Python dict with text keys, as a list of pairs in insertion order. Prelude.antt
--   and its children: names passed on, lists, texts and integers over the native numbers.
--
-- Correspondence. Python integers are natural numbers, or the type of integers where they can be
-- negative; bytes are natural numbers with a bound of 256 as a hypothesis. time.time() is a
-- natural number of ticks of 2^-22 s, the resolution of a double from 2004 to 2038
-- (Prelude/Text.antt). A call of a handler under its lock is one function from the store to the
-- answer and the new store; concurrent requests are sequences of such calls. Exceptions are
-- constructors or none. Loops over collections are recursion on the list; the counted loop of the
-- mu-law encoder is recursion on its counter, from 7, and the number of binary digits is found
-- with fuel 2048, enough for numbers below 2^2048. No other loop has fuel.
--
-- Not modelled: Firestore, Google ADK, Gemini, the HTTP framework and other services, behind which
-- most of the remaining code is input and output; the agents' instructions and the seed data,
-- which are text; the frontend, which is TypeScript. The manifest lists each part.
mod Prelude
mod Dict
pub mod Gate
pub mod Agents
pub mod At
pub mod Admin
pub mod Public
pub mod Shared
pub mod SipBridge
pub mod Tools
