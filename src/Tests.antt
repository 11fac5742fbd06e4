-- ===== src/Tests.antt =====
-- Concrete runs, and the theorems applied to them.
mod Receive
mod Path
mod Whole
mod Wires
mod Lines
mod Both
mod Send
mod Control
mod Program
mod Declared
mod Bank
mod Channels
mod Startup
