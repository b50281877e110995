-- ===== src/Lidar.antt =====
-- src/datachannel/lidar: the metadata of a compressed voxel map, its points, and the workers.
pub mod Metadata
pub mod Points
pub mod Scalar
pub mod Worker
