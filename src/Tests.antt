-- ===== src/Tests.antt =====
-- Runs of the modelled code on concrete inputs, and the theorems applied at such inputs.
mod Codec
mod Ids
mod Links
mod Hops
mod Client
mod Panes
mod Saves
mod Notices
mod Events
mod Hub
mod Cadences
mod Places
mod Sessions
mod Routing
mod Selections
