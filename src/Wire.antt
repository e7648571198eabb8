-- ===== src/Wire.antt =====
-- Both ends of one wire: what one side of this repository writes, read by the other side.
pub mod Completion
pub mod Query
pub mod Task
pub mod Directions
pub mod Offer
pub mod Ticket
pub mod Handshake
pub mod Bridge
pub mod Presenter
