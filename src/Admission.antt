-- ===== src/Admission.antt =====
-- internal/admission: the tracker of live sessions and the gate that admits new ones.
pub mod Tracker
pub mod Gate
mod Tests
