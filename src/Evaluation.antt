-- ===== src/Evaluation.antt =====
-- Evaluation of generated text (src/rumor_mill/evals).
pub mod Cases
pub mod Rules
pub mod Runner
pub mod Contained
pub mod Budget
