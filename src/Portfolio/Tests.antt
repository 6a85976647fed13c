-- ===== src/Portfolio/Tests.antt =====
-- Runs of the portfolio's stages over fixed-point numbers, and each theorem at an input.
mod Bounded
mod Steady
mod Capped
mod Shares
