-- ===== src/Tests.antt =====
-- Runs of the theorems at concrete inputs, over a small digest and a small JSON library.
mod Toy
mod Texts
mod Receiving
mod Sending
mod Starting
mod Discovering
mod Operating
mod Piping
mod Calling
mod Configuring
mod Serving
mod Trusting
mod Encrypting
mod Arguments
