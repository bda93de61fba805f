-- ===== src/SourceClassifier.antt =====
-- app/source_classifier.py: what kind of sender a source is. Rates are compared as fractions.
pub mod Providers
pub mod Rules
pub mod Verdicts
mod Tests
