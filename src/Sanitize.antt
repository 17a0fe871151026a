-- ===== src/Sanitize.antt =====
-- internal/sanitize/text.go: hostile text made safe for a terminal, a page or a spreadsheet.
pub mod Scan
pub mod Runes
pub mod Terminal
pub mod Fits
pub mod Safe
pub mod Moving
pub mod Presentation
pub mod Csv
pub mod Formula
pub mod Presented
pub mod Display
pub mod Widths
pub mod Lines
mod Samples
