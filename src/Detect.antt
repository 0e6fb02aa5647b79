-- ===== src/Detect.antt =====
-- neudc/nn/models: how an image is cut into slices, how boxes are suppressed, and SAHI on top of both.
pub mod Slices
pub mod Nms
pub mod Sahi
