-- ===== src/Web.antt =====
-- apps/web/src: what the web application computes and keeps besides its pages.
pub mod Pricing
pub mod Rides
pub mod DriverStore
pub mod Websocket
pub mod ApiClient
pub mod AuthStore
pub mod Endpoints
pub mod RequireAuth
pub mod ToastStore
pub mod BookingStore
pub mod DriverDocuments
pub mod Geocoding
