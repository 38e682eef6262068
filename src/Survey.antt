-- ===== src/Survey.antt =====
-- The survey service (backend/src/surveys/submit.service.ts and surveys.repository.ts).
pub mod Types
pub mod Answers
pub mod Submit
pub mod Create
pub mod Tests
