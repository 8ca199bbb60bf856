-- ===== src/Alarm/Recurrence.antt =====
-- The rule alarm.recurrence, app/inspectors/alarm/recurrence.py: the flags of a group of records,
-- the summaries by alarm type and by object, and the verdict.
pub mod Flags
pub mod Rapid
pub mod Views
pub mod Verdict
