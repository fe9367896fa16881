-- ===== src/File.antt =====
-- saphir/src/file: the headers of the file service, and the files it sends.
pub mod Range
pub mod Etag
pub mod Conditional
pub mod Reader
pub mod Stream
pub mod Compression
pub mod Cache
pub mod Site
pub mod Service
