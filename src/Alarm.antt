-- ===== src/Alarm.antt =====
-- app/inspectors/alarm: the alarm CSV files are parsed into records (common.py), and two rules
-- judge the records: alarm.recurrence (recurrence.py) and alarm.active_state (active_state.py).
pub mod Records
pub mod Header
pub mod Objects
pub mod Times
pub mod Row
pub mod Files
pub mod Parse
pub mod Degraded
pub mod Groups
pub mod Recurrence
pub mod ActiveState
mod Tests
