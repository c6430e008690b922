-- ===== src/Layers.antt =====
-- The layers of a multi-layer build: pkg/build/layers.go and pkg/build/layer_plan.go.
pub mod Groups
pub mod Writer
pub mod Split
pub mod Plan
