-- ===== src/Upload.antt =====
-- Uploading files: frontend/src/store/modules/knowledge-base/index.ts, the chunk size of
-- frontend/src/constants/common.ts and `calculateMD5` of frontend/src/utils/common.ts.
pub mod Chunks
pub mod Md5
pub mod Progress
pub mod Workers
pub mod Queue
