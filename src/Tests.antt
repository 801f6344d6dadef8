-- ===== src/Tests.antt =====
-- Test data and concrete instances of the theorems.
mod Book
mod Risk
mod Strategy
mod Itch50
mod Spsc
mod Engine
mod Wire
mod Histogram
mod Exchange
mod Wait
mod Feed
mod Config
mod Settings
