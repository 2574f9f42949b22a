-- ===== src/Wire.antt =====
-- Numbers as texts, as they travel through Redis: the formats of Go's strconv.
pub mod Decimal
pub mod Multiply
