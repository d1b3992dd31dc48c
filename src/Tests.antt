-- ===== src/Tests.antt =====
-- Runs of the model on small inputs, and each result of the library at one of them.
mod Data
mod Buffers
mod Sequences
mod Views
mod Keys
mod Writing
mod Stacks
mod Shades
mod Presses
mod Pictures
mod Codes
mod Events
mod Loops
mod Frames
mod Texts
mod Spellings
mod Places
