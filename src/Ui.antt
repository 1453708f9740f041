-- ===== src/Ui.antt =====
-- internal/ui: the state of the text interface, without what it draws.
pub mod Base
pub mod ServerModel
pub mod Control
