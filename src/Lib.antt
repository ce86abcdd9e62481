-- ===== src/Lib.antt =====
-- The WHP Standing verifier, verify/verify_mark.py: a program that checks, from documents alone, that
-- a standing mark was issued under a root key, that the assessment behind it comes out the same when
-- it is run again, and, if asked, the mark's current status, its service and its payment on a chain.
-- With it, scripts/cold-agent.py: a reader that starts from a mark or a need, finds a provider, runs the
-- verifier that it downloads, and goes as far as the offer of a purchase.
--
-- How the program is put together. `main` reads the documents and calls `verify_result`, which checks
-- the contract, the environment, the issuer's key (`trust`, `grant`), the decision record, then calls
-- `assess` on the submission inside, compares the outcome, and checks the mark's name, the quote, the
-- payment and the discovery identity. `verify_resolution`, `verify_registry` and `recheck_chain` are
-- optional steps of `main` on further documents. All of them rest on `canonical`, `digest` and
-- `unseal`.
--
-- Files. Names of definitions are those of verify/verify_mark.py where it has them.
--   Value, Dict, Text      JSON documents as the program's Python values, dicts, strings
--   Number                 `int(text)`, `int(text, 16)`, `lower()`
--   Result, Compare        exceptions as values, `need`, `and`/`or`/`all`/`any` that may raise
--   Canonical              `canonical`
--   Env                    the libraries that the program calls, as a record; `digest`, `keyid`
--   Envelope               `unseal`
--   Trust                  `trust`, `grant`; Trust/Granted: when `grant` accepts; Trust/Admitted: what
--                          `trust` admits
--   Shape                  `input_shape`
--   Graph                  `visit` in `assess` and the test GRAPH_CLOSURE; the files under Graph/ prove
--                          that the walk ends and what the test means
--   Assess                 `assess`, with its loops in Assess/Nodes and Assess/Passages on the locals of
--                          Assess/Trace; the other files under Assess/ follow the checks, the expiry and
--                          the allowed operations through the loops
--   Mark, Mark/Payment     `verify_result`; Mark/Vouched, Mark/Paid: what an accepted result vouches for
--   Discovery              `verify_discovery`, `verify_resolution`, `verify_resolution_only`
--   Registry               `verify_registry`; Registry/History: the events that it accepts;
--                          Registry/Status, Registry/Regranted: what the status means
--   Finality               `recheck_chain`
--   Main                   `main`; Main/Outcome: how it ends, on what its steps return and raise, in
--                          the other files under Main/
-- The reader of scripts/cold-agent.py, which uses the files above for what the two programs share:
--   ColdAgent              `signature`, `bootstrap_trust`, `grant`, `b64`
--   ColdAgent/Reader       `Reader.admit`, `request` with `NoRedirect`, `invocation`, `recognize`;
--                          Reader/Safe, Reader/Admits: what they let through
--   ColdAgent/Probe        `pairs`, `local_refs`
--   ColdAgent/Action       how a method changes the reader, and what it calls of the system
--   ColdAgent/Links        the checks of `document` and `resolve`; ColdAgent/Resolve: the two methods
--   ColdAgent/Pointer      `pointer`
--   ColdAgent/Sandbox      `sandbox`; ColdAgent/Marks: `verify_mark`
--   ColdAgent/Offer        the checks of `purchase_boundary`, `expand`; ColdAgent/Purchase: the method
--   ColdAgent/Catalog      the checks of `from_need`; ColdAgent/Needs: the method; ColdAgent/Attempts:
--                          which candidate it takes
--   ColdAgent/Meaning, Run `from_mark`, `run`
--   ColdAgent/Keeps        what every method keeps of the reader; ColdAgent/Agrees: `signature` beside
--                          `unseal`, whose steps are in Envelope/Unsealed and Value/Laws
-- Of scripts/freeze-contract.py:
--   Freeze                 `canonical`; Freeze/Agrees: beside `canonical` of the verifier
--   Example                sample documents on which the programs run, with toy libraries
--
-- How the state is modelled. The program is a chain of checks, each of which raises or goes on: every
-- function returns a `Result`, and a `Fault` is the class of exception that the code would raise. The
-- locals that the loops of `assess` change (`checks`, `expiry`, `allowed`) are the record `Tally`; the
-- sets of the walk are the record `Walk`; the locals of the loop over registry events are `Chain`.
-- Python integers are the integers, without a bound; a Python string is the list of its code points,
-- a dict the list of its entries in the order in which they were put.
--
-- Parameters. The record `Env` has the SHA-256 digest, base64, the key loader, the signature check, the
-- JSON Schema validator, the embedded schemas, URL splitting, and the verifier's own bytes. Nothing is
-- assumed of them. The answers of an RPC node are an argument of `recheck_chain`, the documents and the
-- clock inputs of `main`. The record `Agent` has what the reader calls: the network, the JSON parser,
-- the schema check, URL quoting, the clock, new keys and tokens, and the container. What may answer
-- differently at each call is given the reader as it then is, whose trace has every request so far.
--
-- Fuel. Three functions run on fuel. The walk gets one more than the number of nodes, since each nested
-- call has one more node in `visiting`. The digits of a number in base 10 and in base 16 get one more
-- than the number itself, which has fewer digits than that.
--
-- Not modelled: the JSON parser behind `read` and `parse`, with its hooks but `pairs`; files, argument
-- parsers, printing and the text of error messages; the constants that `run` adds to a report. `int`
-- of a text reads ASCII digits, and in `pointer` also a sign, where `int` of Python takes a sign, spaces,
-- underscores and the digits of other scripts in both. The rest of scripts/freeze-contract.py, and
-- scripts/generate-schemas.py, scripts/check-schemas.py and build-input/public-v1-stage.py, write files at
-- build time. The service under src/ is JavaScript.
mod Prelude
pub mod Result
pub mod Text
pub mod Dict
pub mod Value
pub mod Number
pub mod Canonical
pub mod Env
pub mod Envelope
pub mod Trust
pub mod Shape
pub mod Graph
pub mod Assess
pub mod Compare
pub mod Discovery
pub mod Mark
pub mod Registry
pub mod Finality
pub mod Main
pub mod Freeze
pub mod ColdAgent
mod Example
