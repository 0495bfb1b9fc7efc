-- ===== src/Mahjong.antt =====
-- component/mjana/mjana.go: the analysis of a mahjong hand.
pub mod Cards
pub mod Analyser
pub mod Hand
pub mod Split
pub mod Parallel
pub mod Wild
mod Examples
