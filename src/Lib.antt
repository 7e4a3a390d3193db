-- ===== src/Lib.antt =====
-- NACo: a network access control server for RADIUS (beside FreeRADIUS) and TACACS+.
--
-- FreeRADIUS asks NACo whether credentials are valid, whether a subject may enter and with which
-- VLAN, and reports sessions; switches and routers ask it over TACACS+ who may log in and which
-- commands are allowed. The parts, and the files that model them:
--
-- - RateLimit (naco/core/ratelimit.py): the sliding window of requests, the progressive delay after
--   failures and the guard against password guessing. `Window`, `Delay` and `Guard` hold a record
--   for each class and a function for each method; times are natural numbers.
-- - Tacacs.Wire (naco/tacacs/protocol.py): headers, the obfuscation of bodies, bodies and replies.
--   Bytes are numbers below 256, and MD5 is a parameter.
-- - Tacacs.Authz, Tacacs.Server, Tacacs.Dispatch, Tacacs.Records, Tacacs.Connections (naco/tacacs/authz.py, naco/tacacs/server.py):
--   rights, command sets, `authorize`, the tests of a packet, the state of ASCII logins, `verify` and
--   the counts of connections. Of the rows that the server stores, only those of
--   accounting are modelled.
-- - Policy (naco/policy/): the context of a decision, conditions with their patterns and time windows,
--   reply attributes, and the engine: `compile_policy`, `decide`, `explain`, `load_policies` and
--   `evaluate`. pydantic's own checks come first; Python's tables of characters (`lower`,
--   `casefold`, `isspace`) and its `fnmatchcase` are the parameter `Unicode`, and the configured zone is `Zone`.
-- - Aaa (naco/auth/identity.py, naco/aaa/subject.py, naco/aaa/service.py): accounts and logins, the
--   hard rules, decisions for every method, the cache of verified passwords and the session table.
--   The tables of the database are lists that the functions take and return; bcrypt, the directory
--   and the clock are the parameter `World`. A transaction is one step, and commits that run
--   against each other are not modelled.
-- - Radius.Clients (naco/radius/clients.py): which registered client an address belongs to;
--   `ipaddress` is the parameter `Addresses`.
-- - Radius.Vendors, Radius.Coa, Radius.Coa.Exchange (naco/radius/vendors.py, naco/radius/coa.py):
--   Disconnect-Requests, the check of responses, and `disconnect`, where `waits i` lists what the
--   socket receives while the client waits after sending for the time `i + 1`; a socket error that is a
--   TimeoutError ends a wait, and all that follow. MD5 and HMAC-MD5 are
--   parameters.
-- - Radius.Reevaluate, Radius.Reevaluate.Worker (naco/radius/reevaluate.py): the sessions are decided
--   again by `subject_context` and `decide`, and those whose decision changed are disconnected; the
--   worker turns bursts of changes into one run. Disconnects run one after the other.
-- - Passwords (naco/core/passwords.py): the checks around bcrypt, which is a parameter.
-- - Api.Totp, Api.Sessions, Api.Access (naco/api/totp.py, naco/api/sessions.py, naco/api/deps.py):
--   one-time codes, the sessions of administrators, tokens, the CSRF checks and the gate of the
--   routes. Each is a function of the tables, which returns them changed. SHA-256, pyotp and the
--   drawn texts are parameters; times are in microseconds.
-- - Api.SignIn, Api.SignIn.Setup (naco/api/routes/auth.py, naco/api/audit.py): `login` with its
--   throttles, `change_password`, `totp_setup`, `totp_confirm`, `totp_disable`, `logout` and
--   `end_session`. Where the source ends its transaction while bcrypt runs, a function on the
--   accounts stands for what other requests do meanwhile; a request that raises stores nothing.
--   Api.Audit (naco/api/audit.py): the differences that the audit trail shows.
-- - Maintenance (naco/maintenance.py): one pass of the housekeeping. Events (naco/core/events.py):
--   publishing to the subscribers.
-- - Models (naco/db/models.py): the rows. Netutils (naco/core/netutils.py, naco/core/oui.py): MAC
--   addresses, station ids, the addresses of RADIUS clients, where `ipaddress` is a parameter, and vendors.
-- - Base: shared helpers. Tests: concrete inputs.
--
-- `authenticate` and `verify` call the guard and `authenticate_user`; `_decide` calls
-- `subject_context` and then `evaluate`, as in the source. Every loop is structural recursion. Subtraction on natural numbers stops at zero, which is what `max(0.0, ...)` does in
-- the source.
--
-- The loop of `_find_attr` takes the length of the packet as its fuel, and each round moves on by two
-- bytes at least; the loop of `_prune` takes one more than the number of rows, and each round but the
-- last deletes a whole chunk.
--
-- `login` goes through `SlidingWindow.hit` and `GuessGuard`, `verify_password` and `match`, and ends in
-- `create`; `current_principal` goes through `resolve`, and `require` judges what it returns.
-- `maintenance_pass` wakes the worker of the re-evaluation, which sends through `disconnect`.
--
-- `ProgressiveDelay.failure` raises an OverflowError once 1024 failures that cost are counted; the model
-- keeps what is stored then, and the callers go on as if nothing was raised.
--
-- Not modelled: the routes of the API past sign-in, the web pages and the portal, the command line, LDAP
-- and the database engine (input and output), and the reading of request attributes.
pub mod Base
pub mod Radius
pub mod RateLimit
pub mod Models
pub mod Netutils
pub mod Policy
pub mod Tacacs
pub mod Aaa
pub mod Passwords
pub mod Api
pub mod Maintenance
pub mod Events
pub mod Tests
