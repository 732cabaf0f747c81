-- ===== src/Merchants.antt =====
-- mock_merchants/: the registry of merchants, and the merchants themselves.
pub mod Registry
pub mod Shop
pub mod Crm
pub mod Hotel
pub mod Domain
pub mod FlexStay
pub mod Flaky
pub mod Venue
pub mod Catering
pub mod Laws
