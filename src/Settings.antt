-- ===== src/Settings.antt =====
-- internal/service/settings/settings.go: what a setting takes, and where a change of it goes.
pub mod Diff
pub mod Tree
pub mod Scalar
pub mod Update
use docsearch.Prelude.{arith}
