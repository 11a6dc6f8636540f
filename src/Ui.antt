-- ===== src/Ui.antt =====
-- The user interface's logic: src/ui.
pub mod QueryClassifier
