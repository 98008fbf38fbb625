-- ===== src/Lib.antt =====
-- Logmara: a syslog server. This library models the core of its Go backend (the files below
-- backend/) and proves what makes its parts correct.
--
-- How the parts work together: rsyslog writes lines to a file; the tailer (backend/tailer) reads
-- it, publishes the lines through a queue to its workers, which parse them with the parser engine
-- (backend/parser), insert them into the database, evaluate the alert rules on them
-- (backend/alertengine) and report their progress to the flush tracker (backend/sharedstate). The
-- handlers (backend/handler) query the stored lines; the middleware (backend/middleware) guards
-- them.
--
-- Modules and the code they model:
--   Prelude: shared names; tests on numbers, lists, association lists (Go's maps), byte texts, and
--     what can happen to a call of another program.
--   Query: backend/handler/querybuilder.go. Query.Sql has the slices of clauses and arguments,
--     Query.Operators the field filters, Query.Where buildLogWhereClauses, Query.Count the count
--     cache, Query.Paging parsePaginationFromStrings. Query.Numbering and Query.Safety prove.
--   Regex: the regular expressions that the program itself writes, and when a text matches one.
--   Parser: backend/parser/engine.go. Parser.Cache has compileCached, Parser.Glob globToRegex,
--     Parser.Engine Match, Extract and Parse; Parser.Merge and Parser.Reference prove.
--   Alerts: backend/alertengine. Alerts.Pattern has matchPattern, Alerts.Conditions the filters of
--     a rule, Alerts.Counter the local counter store, Alerts.Batch the evaluations, Alerts.Silence
--     CheckDeviceSilence; Alerts.Batches, Alerts.Cooldown and Alerts.Escalation prove.
--   Flush: backend/sharedstate/flushtracker.go and the publishing loop of backend/tailer/reader.go.
--     Flush.Tracker has the script and the methods of FlushTracker, Flush.Reader one pass of the
--     loop; Flush.Contiguous, Flush.Progress, Flush.Covers and Flush.Gaps prove.
--   Leader: backend/sharedstate/leader.go. Leader.Lock has Acquire, Renew and Release with their
--     scripts, Leader.Loop RunLeadership; Leader.Holding, Leader.Terms, Leader.Failures and
--     Leader.Callbacks prove.
--   ApiKey: backend/middleware/apikey.go and backend/sharedstate/ratelimiter.go. ApiKey.Auth has
--     APIKeyAuth, ApiKey.Limiters the map of limiters, ApiKey.Sliding the window in Redis,
--     ApiKey.Network ipAllowed, ApiKey.Scope ApplyScopeFilters; ApiKey.Window, ApiKey.Demand,
--     ApiKey.Guards, ApiKey.Counts, ApiKey.Burst and ApiKey.Numbered prove.
--   Control: backend/control/ingestion.go. Control.Flag has both controllers, Control.Settling
--     proves.
--   Worker: the consume loop of backend/tailer/worker.go. Worker.Row makes rows of lines,
--     Worker.Loop has the events of the loop; Worker.Settled and Worker.Balance prove.
--   Files: the log file, in backend/tailer/tailer.go, reader.go and backend/sharedstate/position.go.
--     Files.Splitter has lineSplitter, Files.Backseek safeBackseek, Files.Compact compactFile,
--     Files.Cycle the compaction in FileReader, Files.Position the saved positions, Files.Resume
--     loadStartPositionFromReader; Files.Lines, Files.Pass, Files.CycleResult,
--     Files.Reread, Files.Restore, Files.Start and Files.Fallback prove.
--   Store: how rows get into the database, in backend/tailer/tailer.go. Store.Insert has flushBatch,
--     insertChunk and insertRowsIndividually; Store.Chunks, Store.Stored and Store.Batch prove.
--   Solo: a round of runIngestionLoop in backend/tailer/tailer.go, without replicas. Solo.Loop has
--     the lines and the end of the round, Solo.Rows says what is stored of a line; Solo.Passes and
--     Solo.Losses prove.
--   Session: backend/auth/auth.go, and the grace period of backend/main.go. Session.Keys has the keys
--     and the tokens, Session.Guards the middleware, Session.Passwords the rules for passwords;
--     Session.Grace and Session.Timeout prove, and Session.Guards and Session.Passwords do for theirs.
--   Login: rateLimiter of backend/main.go, with exact instead of floating-point tokens.
--     Login.Bucket has its operations; Login.Bounds and Login.Sweeps prove.
--
-- How the code is read. A method that changes its receiver returns the new state; a lock makes a
-- call one step. Times and durations are natural numbers of nanoseconds; integers that the code
-- only counts up stay unbounded. A clause of SQL is a list of pieces, so that a placeholder is its
-- number. Texts that the code walks are lists of code points, and files are lists of bytes;
-- strings.ToLower and strings.TrimSpace are modelled on ASCII; texts that are only compared are
-- strings. A switch on a string is a chain of
-- tests in the order of its cases, or an ordered table of them. A map is an association list with
-- one entry for a key. The loop of the flush tracker's script runs on fuel, and a report returns if
-- a number that was not reported is within it. The scanners of a file (Files.Splitter,
-- Files.Resume), the loop over the chunks of a batch (Store.Insert) and the printing of a number
-- (Files.Position) have the length of what is left, or the number, as fuel, which is enough since
-- every round takes some of it. Every other loop is a recursion on a list or a text.
--
-- Parameters, for code that is not in the repository: Parser.Cache.RegexpLib is Go's regexp
-- package for the expressions that users write (its documented agreement of MatchString with
-- FindStringSubmatch, and its behaviour on the syntax of Regex); Flush.Hash.RedisHash is the Redis
-- hash, with the documented laws of HGET, HSET and HSETNX, and Leader.Lock.RedisKey a Redis key,
-- with those of GET, SET NX, PEXPIRE and DEL; ApiKey.Network.NetLib is Go's net package,
-- ApiKey.Auth.Digests the keyed digests of an API key, Worker.Row.JsonLib Go's JSON decoder, and
-- Session.Keys.JwtLib the JWT library: it accepts a token with the key that signed it until it expires, and with no
-- other. SHA-256 (Files), time.Parse (Store) and the answers of the file system are arguments.
-- What the database answers is an argument of the functions that use it.
--
-- What the model leaves out of the code that it has. Nothing runs between the calls of one function:
-- so rsyslog does not write while compactFile works (what it appended before is an argument), and the
-- pause flag is not moved by others within a compaction. In cachedFilteredCount the lookup and the
-- store are one step, though the mutex is released between them. os.Remove of the temporary file does
-- its work. A Publish that fails did not reach the queue. Flush.Progress is about reports that Redis
-- answers; Flush.Tracker has the failed ones too. The flag i of a regular expression folds ASCII
-- letters only. A purge that is forwarded to the leader over Redis is left out.
--
-- Not modelled: HTTP routing and rendering, SQL execution, encryption and token formats, LDAP,
-- Vault, the relay's certificates and the cloud bridge, which are glue around other programs; the
-- frontend and the deployment scripts, which are not Go.
pub mod Prelude
pub mod Regex
pub mod Query
pub mod Parser
pub mod Alerts
pub mod ApiKey
pub mod Control
pub mod Files
pub mod Flush
pub mod Leader
pub mod Login
pub mod Session
pub mod Solo
pub mod Store
pub mod Worker
