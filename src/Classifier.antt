-- ===== src/Classifier.antt =====
-- src/mailmap/model.py and src/mailmap/classifier.py: the assessment of synthetic messages.
pub mod Model
pub mod Identity
pub mod Rules
pub mod Assess
pub mod Safety
pub mod Threads
pub mod Tests
