-- ===== src/Tests.antt =====
-- Runs of the modelled code on concrete inputs, and the theorems at these inputs.
mod Samples
mod Chats
mod Bots
mod Histories
mod Accounts
mod Memories
mod Routes
mod Turns
mod Patches
mod Rounds
mod Frames
mod Flows
mod Graphs
mod Growths
