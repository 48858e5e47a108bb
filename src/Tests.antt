-- ===== src/Tests.antt =====
-- Runs of the model on a small ledger, and instances of its theorems there.
mod Memory
mod Selected
mod Lawful
mod Seated
mod World
mod Reads
mod Writes
mod Access
mod Office
mod Texts
mod Provisioned
mod Broken
mod Histories
mod Available
mod Scripting
