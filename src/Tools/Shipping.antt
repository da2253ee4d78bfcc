-- ===== src/Tools/Shipping.antt =====
-- app/tools/shipping_tools.py: orders, their tracking and the review follow-up.
pub mod Records
pub mod Store
pub mod Create
pub mod Review
pub mod Update
pub mod Fetch
pub mod Track
pub mod Notices
pub mod Once
pub mod Events
pub mod Stored
pub mod Followed
pub mod Sound
pub mod Late
pub mod Rates
pub mod Quotes
pub mod Lowest
pub mod Offers
mod Tests
