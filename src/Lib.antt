-- ===== src/Lib.antt =====
-- A verification library for the core of NFT Vault (core/): encrypted files cut into blocks, blocks
-- kept on several storage points, the key shared among people, and the space sold by a control plane.
--
-- The program: `vault.Vault` cuts a file into chunks, seals each with `aead.Seal` and hands the
-- envelopes to `cas.Store`, which writes them under the hash of their bytes to every backend. A
-- manifest, sealed and stored the same way, lists the chunks. `shamir` shares the master secret.
-- `control.Service` keeps plans, accounts, usage and invoices in a `control.Store` that writes itself
-- to a file after every change, and settles invoices by the providers of a `payment.Registry`.
-- `node.Server` serves a backend over HTTP and `node.RemoteBackend` is such a node as a backend;
-- `control.API` serves the service and `control.Client` calls it, so that a node charges the blocks
-- that it accepts. `paperkey` derives the keys from a mnemonic, and the commands put these together.
--
-- The files:
--   Base, Base/...           lists, options and the native numbers; Result for Go's errors, Int for
--                            int64 with its wrap-around, Text for strings as bytes, Dict for maps,
--                            Hex for encoding/hex, Strings and Trim for strings and strconv.
--   Http                     the part of HTTP that servers and clients share: core/node/protocol.go.
--   Gf256, Gf256/...         core/shamir/shamir.go: init, gfMul, gfDiv; Laws has the field laws.
--   Lagrange, Lagrange/...   interpolation over a field of characteristic two, free of the program.
--   Shamir, Shamir/...       core/shamir/shamir.go: eval, Split, Combine. Secret, Deal and Recover are
--                            about enough shares; Secrecy, Unique, Hidden and Withheld about fewer.
--   Aead                     core/aead/aead.go: Seal, Open, AAD.
--   Cas, Cas/...             core/cas/cas.go: Address, verify, NewStore, Put, Get, Health.
--   Cas/Survival, Loss, Healing
--                            the store over a sequence of calls, after the loss of one backend, and
--                            after a read.
--   Cas/Files                core/cas/fsbackend.go: the backend that keeps blocks as files.
--   Cas/Files/Durable, Backed, Written
--                            theorems on such a backend as one of the store's.
--   Vault, Vault/...         core/vault/vault.go: Open, PutFile, GetManifest, GetFile. Kept and Survival
--                            follow the blocks of a file on the backends.
--   Node                     core/node/server.go: the handlers and the guards of a storage node.
--   Node/Client              core/node/client.go: a node as a backend.
--   Node/Wire, Remote, Lasting, Admission, Metered
--                            theorems on a node behind its client, on what a node lets in, and on a
--                            node with the control server as its quota.
--   Paperkey, Paperkey/...   core/paperkey/paperkey.go: Generate, Restore, Unlock and the derived keys;
--                            Paperkey/Sheet is core/paperkey/sheet.go.
--   Cli                      core/cmd/vaultctl/main.go: the flags.
--   Cli/Keys, Points, Shares the unlocked key, the storage points, and split and combine; Cli/Paper has
--                            the theorem on shares on paper.
--   Cli/Files                put, get and health; Cli/RoundTrip has the theorem on put and a later get.
--   Cli/Accounts             the calls of restore, account, invoices and checkout.
--   Cli/Servers              core/cmd/vaultserver/main.go and core/cmd/vaultnode/main.go.
--   Cli/Main                 `main` of vaultctl and vaultadmin: the command and the exit status.
--   Cli/Size, Size/Bounds    humanBytes of vaultctl and parseSize of core/cmd/vaultadmin/main.go.
--   Cli/Admin                core/cmd/vaultadmin/main.go: the request of each command.
--   Payment                  core/payment/payment.go: the provider interface and the registry.
--   Payment/Bitcoin          core/payment/bitcoin/bitcoin.go: New, StartCheckout, VerifyWebhook.
--   Payment/Stripe, Payment/StripeCheckout
--                            core/payment/stripe/stripe.go.
--   Payment/Manual           core/payment/manual/manual.go.
--   Control/Model, Exec, Store
--                            core/control/model.go and core/control/store.go.
--   Control/File, File/Durable
--                            core/control/store.go: the state file, and what a restart finds in it.
--   Control/Service, Service/Billing, Service/Settlement
--                            core/control/service.go, a function for each method.
--   Control/Api              core/control/api.go: writeErr; core/control/client.go: mapStatus.
--   Control/Api/Routes, Handling, Admin, Accounts, Server
--                            core/control/api.go: the routes, the handlers and the guards.
--   Control/Client           core/control/client.go: a function for each method.
--   Control/Space, Space/Release, Ledger
--                            theorems on Reserve and Release, and the ledger that they implement.
--   Control/Settling, Settling/Reactivation, Paid, Paid/...
--                            theorems on settlement, webhooks and the account of a settled invoice, and
--                            on a paid invoice in all later states.
--   Control/Billed, Billed/Run, Overdue, Order
--                            what RunBilling and EnforceDelinquency do to all accounts at once, and that
--                            the order of the maps does not matter.
--   Control/Exec/Ends, Keyed, Keyed/Billing, Reach
--                            the methods as steps, and what holds in every state they reach.
--   Control/Api/Guards, Api/Ownership, Client/Served
--                            theorems on who may change the state, on whose invoices are paid, and on
--                            the client over the API; Control/Offered has what a checkout asks the
--                            payment provider for.
--   Tests/...                runs on small inputs.
--
-- How code corresponds to definitions: a function that returns an error returns a Result; one that
-- changes state takes it and returns the new state, also when it fails. A panic is an error of its own.
-- A map is an association list. Every other loop follows the list it ranges over; the loops of `init`
-- and `Combine` count their rounds. Two loops have fuel: that of `PutFile` one more than the bytes that
-- the reader yields, which is enough since each round but the last takes at least one byte; and that
-- of `humanBytes` six rounds, which are enough since each divides an int64 of 2^53 at most by 2^10. A
-- request is answered by one function from the state to the reply and the next state, and a client's
-- call is an exchange of a request for a response; the routes of the control server are its patterns.
--
-- Where a definition differs: the time `now.Add(-grace)` of EnforceDelinquency is a difference of
-- integers, without the saturation of time.Duration; the client of a node takes an answer whose body
-- breaks off for a failure, also in Put and Has; and the panic of a file backend on a short address is a
-- failed call to the store.
--
-- Parameters: random bytes, the cipher, the hashes, the backends, encoding/json, the clock, the
-- calendar, the payment providers, HMAC-SHA256, bip39 and HKDF, HTTP requests and the mux's reading of a
-- path, the file system, the environment and the terminal, and whether the state file can be written.
--
-- Not modelled: the texts of error messages and what the commands print, listening and logging in
-- core/cmd, core/vendor, a writer that fails in GetFile, and the locks: a method runs as one step, but
-- for CreateCheckout, where other calls may run between its two critical sections.
pub mod Base
pub mod Gf256
pub mod Lagrange
pub mod Shamir
pub mod Payment
pub mod Aead
pub mod Cas
pub mod Http
pub mod Node
pub mod Paperkey
pub mod Cli
pub mod Vault
pub mod Control
pub mod Tests
