-- ===== src/Background.antt =====
-- The background images of a profile: console/src/pages/User/Profile/Edit/backgrounds/drafts.ts
-- and useUserProfileBackgroundUpload.ts.
pub mod Drafts
pub mod Sorting
pub mod Upload
pub mod Actions
pub mod Numbered
pub mod Room
pub mod Confirm
pub mod Moving
mod Tests
