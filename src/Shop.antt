-- ===== src/Shop.antt =====
-- internal/shop: the shop, which sells products for their delivery texts and cards. Its database is
-- its own.
pub mod Schema
pub mod Products
pub mod Orders
pub mod Lowest
pub mod Deliver
pub mod Calls
pub mod Moves
pub mod Stock
pub mod Stocked
pub mod Sold
pub mod Shut
pub mod Apart
pub mod Once
pub mod Paid
