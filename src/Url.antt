-- ===== src/Url.antt =====
-- parseurl.c and parseurl.h: locations taken out of URLs, and URLs built from locations.
pub mod Parse
pub mod Build
pub mod RoundTrip
mod Tests
