-- ===== src/Lib.antt =====
-- Verification of the core of voting-secure: the tamper-evident audit chain, the blind signatures, the
-- voting and survey services, groups and accounts of the backend (backend/src).
--
-- The parts and how they interact. A voter asks the voting service for a blind signature; the service
-- signs with the key of the voting, stores a pending ballot and a participation, and hands an entry to
-- the audit service. Later the voter sends the unblinded signature with the choice; the service takes
-- a lock in Redis, checks the signature and the conditions, stores the ballots, deletes the pending
-- ballot, and hands over a second entry. Handing over is a call of
-- appendChain, which puts the entry into a queue and only logs where that fails; a worker appends what
-- the queue holds. The audit service appends entries one at a time to four
-- interleaved hash chains (the global one, and those of groups, votings and surveys), sets
-- checkpoints, verifies chains and reports whether an entity's chain is secure.
--
-- Base          shared helpers: native numbers, lists, texts, integers, thrown errors as `Result`.
-- Crypto        backend/src/common/utils/crypto-utils.ts: Hex (hexadecimal texts), Power (modPow),
--               Euclid (egcd, modInverse), Blind (blindToken, signBlinded, unblind,
--               verifyBlindSignature). Modular holds the arithmetic. Client is
--               frontend/lib/security/blindSign.ts: genTokenPair, prepareBlind, finalizeBlind.
-- Audit         backend/src/audit/audit.service.ts and its types and schemas. Types, Serialize
--               (deterministicSerialize), Hash (computeHash, genesisHash), Store (the collections and
--               counters), Append (processAppendInternal, onModuleInit, tamper), Status (marks,
--               getAuditStatus, checkpoints), Walk (the loop of a verification), Report (its answers),
--               Verify (verifyChain, verifyVotingChain, verifyGroupChain, verifySurveyChain), History
--               (sequences of operations), Receipts (findBallotReceipt, appendChain, and the appends of
--               the worker in backend/src/audit/audit.processor.ts).
-- Redis         backend/src/redis/redis.service.ts: acquireLock, releaseLock, performVote,
--               setTemporaryReceipts, setSnapshot, del.
-- SigningKeys   backend/src/signing-keys/signing-keys.service.ts: ensureVotingKey, getVotingKey and
--               their siblings for surveys.
-- Vote          backend/src/votings/vote.service.ts and votings.repository.ts: Types (the rows), Guards
--               (the conditions of vote), Cast (the transaction), Submit (vote as a whole), Sign
--               (signBlindedToken), Protocol (from a blinded token to its vote), Finalize (the tally
--               and finalizeVoting), Results (getResults, getSealedResult), Change
--               and Admin (backend/src/votings/votings.service.ts: what create, update, updateOption
--               and delete write, and the operations),
--               Verifiable (from a vote to its receipts in the audit chain).
-- Access        backend/src/common/guards/roles.guard.ts: RolesGuard.
-- Groups        backend/src/groups/groups.service.ts: roles and permissions; Emails, who sees which
--               address; Service, what changes groups, as functions and as a step relation; Guard,
--               backend/src/common/guards/group-role.guard.ts.
-- Survey        backend/src/surveys/submit.service.ts and surveys.repository.ts: Types (the rows),
--               Answers (what is asked of a response, and what is made of it), Submit (submitResponse),
--               Create (backend/src/surveys/surveys.service.ts: what create checks and completes).
-- Auth          backend/src/users/users.service.ts (Users: accounts and their update) and
--               backend/src/auth/auth.service.ts (Service: register, signIn, refresh, verifyEmail,
--               forgotPassword, resetPassword).
--
-- State is passed explicitly: an operation takes the store and gives its answer and the store after
-- it. Times are milliseconds, and a call takes the time as `now`. Numbers are unbounded, as BigInt is;
-- sequence numbers stay far below 2 ^ 53. `modPow` and `egcd` recurse on accessibility of `<`, `to_hex`
-- on fuel one above its argument, which each division by 16 lowers; the loop over a scale has fuel for
-- each number between its ends, and a step is at least 1.
--
-- Parameters: SHA-256, HMAC, RSA's private operation, the parsing of keys and `toISOString` are Node's
-- (records Platform, Rsa and VotePlatform), as is JSON.parse of a sealed tally; the JWT library, argon2
-- and AES are the record AuthPlatform; what the database, Redis and the generators answer to one
-- call is the record Outside or an argument, as is whether the lock can be released. A hexadecimal text
-- is the list of its digits' values; the value of the empty text is 0, where BigInt('0x') throws. The
-- payload of an audit entry is stored as it was handed over: that the queue's JSON and the database may
-- drop fields that are undefined, and empty objects, is left out. A state of the voting service keeps
-- the calls of appendChain that it made; which of them the queue took is an argument of Receipts.
--
-- Not modelled: the rest of the administration and the results of surveys, the queries of votings,
-- users and groups, the other queries and reports of the audit service, expiry of Redis keys, mail,
-- cookies, sockets, most controllers and the rest of the frontend: input and output, or outside the
-- core of a vote.
pub mod Base
pub mod Crypto
pub mod Audit
pub mod Redis
pub mod SigningKeys
pub mod Vote
pub mod Access
pub mod Groups
pub mod Auth
pub mod Survey
