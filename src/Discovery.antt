-- ===== src/Discovery.antt =====
-- src/personal_voice_msg/discovery/web.py: the bounded access to public web pages.
pub mod Library
pub mod Url
pub mod PublicUrls
pub mod Policy
pub mod Response
pub mod Redirect
pub mod Fetch
pub mod Fetching
pub mod Rounds
pub mod Resolver
pub mod Pinning
pub mod Metadata
pub mod Session
pub mod Calls
pub mod Capabilities
pub mod Pages
pub mod Rules
pub mod Search
pub mod Structure
pub mod Hits
pub mod Analysis
pub mod Baseline
pub mod Analyzing
