-- ===== src/Domain.antt =====
-- internal/domain: statuses, sizes, keys and the avatar.
pub mod UploadStatus
pub mod ProcessingStatus
pub mod Thumbnail
pub mod Keys
pub mod Avatar
