-- ===== src/Engine/Template.antt =====
-- pkg/engine/template.go: payload templates.
pub mod Regex
pub mod Rewrite
pub mod Transform
pub mod Render
pub mod Validate
pub mod Checked
pub mod Typed
pub mod Funcs
