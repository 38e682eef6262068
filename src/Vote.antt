-- ===== src/Vote.antt =====
-- The voting service: blind signatures are issued, ballots are cast, results are counted and sealed
-- (backend/src/votings/vote.service.ts, backend/src/votings/votings.repository.ts).
pub mod Protocol
pub mod Types
pub mod Guards
pub mod Cast
pub mod Submit
pub mod Sign
pub mod Finalize
pub mod Results
pub mod Verifiable
pub mod Change
pub mod Admin
pub mod Tests
