-- ===== src/Ui.antt =====
-- internal/ui: the questions that are asked in the terminal.
pub mod Gate
