-- ===== src/Tests.antt =====
-- Runs of the model at concrete inputs, and each theorem at an input that meets its hypotheses.
mod Api
mod Events
mod Access
mod Assets
mod Oidc
mod Pages
mod Queue
mod Session
mod Tickets
mod Users
mod Manager
mod Links
mod Settings
mod AssetPages
mod TicketPages
