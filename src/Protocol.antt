-- ===== src/Protocol.antt =====
-- What the driver and the server must agree on, fields of a header, places of pages and binders,
-- and what a driver and a server do together.
pub mod RoundTrip
pub mod Place
pub mod ReadBack
pub mod Coherent
pub mod Early
