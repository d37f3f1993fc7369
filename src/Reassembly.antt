-- ===== src/Reassembly.antt =====
-- reassembly.py: TCP streams put together from packets, and their classification into mail
-- sessions (backend/app/parsing/reassembly.py).
pub mod HalfStream
pub mod Flush
pub mod Order
pub mod Arrivals
pub mod Complete
pub mod Genuine
pub mod Stall
pub mod Wrap
pub mod Session
pub mod Assembler
pub mod Segments
pub mod Markers
pub mod Server
pub mod Endpoints
pub mod Closing
pub mod Emission
pub mod FiveTuple
pub mod Directions
mod Tests
