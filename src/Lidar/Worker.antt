-- ===== src/Lidar/Worker.antt =====
-- src/datachannel/lidar/service.rs: the queue of the decoders, and what a worker does with a request.
use Prim.Native.String.{◌++◌ as append}
use unitree_webrtc_rs.Base.{
  ℕ, Bool, not, Option, none, some, List, [], ◌∷◌, ◌++◌, String, Bytes, Result, ok, err, ◌>>=◌, ltb,
  leb, ◌==◌, length, map, min, if◌then◌else◌,
}
use unitree_webrtc_rs.Events.Queue.{Hub, SendResult, sent, full, disconnected, try_send}
use unitree_webrtc_rs.Events.Size.{Sizes}
use unitree_webrtc_rs.Events.{lidar_callback}
use unitree_webrtc_rs.Json.{Value}
use unitree_webrtc_rs.Lidar.Metadata.{
  Floats, LidarMetadata, validate_geometry, max_compressed_bytes,
}
use unitree_webrtc_rs.Lidar.Points.{decompress_lz4, bits_to_points_optimized}
use unitree_webrtc_rs.Models.{show_nat}

abbrev pub queue_capacity : ℕ
queue_capacity = 4

-- `create_worker_pool`, by the machine's parallelism if that is known.
unfoldable pub worker_count : Option ℕ → ℕ
worker_count none = 2
worker_count (some n) = if ltb n 2 then 2 else min n 4

module _ (F : Floats) (bits_of : F.F32 → ℕ) (decompress : Bytes → ℕ → Option Bytes) where
  pub record LidarDecodeRequest : Type 0 where
    pub topic : String
    pub generation : ℕ
    pub payload : Value
    pub compressed_data : Bytes
    pub metadata : LidarMetadata F

  abbrev pub geometry : LidarMetadata F → ℕ → Result (Unit {0})
  geometry m size = validate_geometry F size m.origin_x m.origin_y m.origin_z m.resolution

  -- The bounded channel, of which some worker is alive or none is.
  pub record Pool : Type 0 where
    pub requests : List LidarDecodeRequest
    pub workers_alive : Bool

  unfoldable pub enqueue : Pool → LidarDecodeRequest → Pool × Result (Unit {0})
  enqueue pool request =
      if not pool.workers_alive
      then (pool, err "LiDAR workers disconnected")
      else if leb queue_capacity (length pool.requests)
      then (pool, err "LiDAR worker queue full")
      else (record pool { requests = pool.requests ++ request ∷ [] }, ok tt)

  unfoldable pub submit : Pool → LidarDecodeRequest → Pool × Result (Unit {0})
  unfolding enqueue
  submit pool request = elim (geometry request.metadata request.metadata.src_size) [
    | err e ↦ (pool, err e)
    | ok u ↦
        if ltb max_compressed_bytes (length request.compressed_data)
        then (pool, err "LiDAR compressed size exceeds resource budget")
        else enqueue pool request
  ]

  unfoldable pub decode_lidar : LidarDecodeRequest → Result (List F.F32)
  unfolding decompress_lz4 bits_to_points_optimized
  decode_lidar req =
      let m = req.metadata in
      geometry m m.src_size >>= λ u.
      decompress_lz4 decompress req.compressed_data m.src_size >>= λ decompressed.
      if not (length decompressed == m.src_size)
      then err (
          append "Decompressed size " (
            append (show_nat 20 (length decompressed))
              (append " != expected " (show_nat 20 m.src_size))))
      else bits_to_points_optimized F decompressed m.origin_x m.origin_y m.origin_z m.resolution

  -- What a worker counts of a request: nothing, a drop, a missing dispatcher or a failed decoding.
  pub data Noted : Type 0 where
    unremarked dropped disconnect_noted failed_noted : Noted

  abbrev pub noted : SendResult → Noted
  noted sent = unremarked
  noted (full e) = dropped
  noted (disconnected e) = disconnect_noted

  -- The body of a worker's loop for a request. `observed` is the generation that the sender reads before
  -- it takes the lock.
  unfoldable pub worker_step : Sizes → ℕ → LidarDecodeRequest → Hub → Hub × Noted
  unfolding decode_lidar try_send
  worker_step z observed req hub =
      if not (hub.current == req.generation) then (hub, dropped) else elim (decode_lidar req) [
        | err e ↦ (hub, failed_noted)
        | ok points ↦
            let event = lidar_callback req.topic req.payload (map bits_of points) in
            let (hub', r) = try_send z observed req.generation event hub in (hub', noted r)
      ]
