-- ===== src/Chunks.antt =====
-- src/datachannel/core/chunks.rs: `ChunkAssembler`, which joins the chunks of a large response under
-- budgets of chunks, bytes, transfers and time. Instants are nanoseconds, an argument of each call.
pub mod Entries
pub mod Branches
pub mod Invariant
pub mod Isolation
pub mod Expiry
pub mod Reassembly
use Entries.{Ordered, get, put, values}
use Prim.Native.Nat.{◌+◌, ◌-◌, ◌*◌}
use text.Mathlib.Text.{◌==◌ as str_eq}
use unitree_webrtc_rs.Base.Dict.{Dict, lookup, insert as put_entry, remove as drop_entry, sum_of}
use unitree_webrtc_rs.Base.{
  ℕ, Bool, true, false, not, ◌&&◌, ◌||◌, Option, none, some, List, [], ◌∷◌, String, Bytes, Result,
  ok, err, ltb, leb, ◌==◌, if◌then◌else◌, length,
}

abbrev pub max_chunks : ℕ
max_chunks = 4096

abbrev pub max_transfer_bytes : ℕ
max_transfer_bytes = 16 * 1024 * 1024

abbrev pub max_transfers : ℕ
max_transfers = 64

abbrev pub max_retained_bytes : ℕ
max_retained_bytes = 64 * 1024 * 1024

-- 30 seconds.
abbrev pub transfer_ttl : ℕ
transfer_ttl = 30 * 1_000_000_000

pub record Transfer : Type 0 where
  pub schema : String
  pub total : ℕ
  pub chunks : Ordered
  pub bytes : ℕ
  pub deadline : ℕ

pub record ChunkAssembler : Type 0 where
  pub transfers : Dict Transfer

abbrev pub empty : ChunkAssembler
empty = record { transfers = [] }

unfoldable pub remove : ChunkAssembler → String → ChunkAssembler
remove a key = record a { transfers = drop_entry key a.transfers }

unfoldable pub clear : ChunkAssembler → ChunkAssembler
clear a = record a { transfers = [] }

unfoldable pub expired_keys : ℕ → Dict Transfer → List String
expired_keys now [] = []
expired_keys now ((key, t) ∷ m) =
    let rest = expired_keys now m in if leb t.deadline now then key ∷ rest else rest

unfoldable pub remove_all : ChunkAssembler → List String → ChunkAssembler
remove_all a [] = a
remove_all a (key ∷ keys) = remove_all (remove a key) keys

unfoldable pub expire : ChunkAssembler → ℕ → ChunkAssembler × List String
expire a now = let expired = expired_keys now a.transfers in (remove_all a expired, expired)

-- `previous == &bytes`
unfoldable pub bytes_eq : Bytes → Bytes → Bool
bytes_eq [] [] = true
bytes_eq (x ∷ xs) (y ∷ ys) = x == y && bytes_eq xs ys
bytes_eq _ _ = false

abbrev pub Inserted : Type 0
Inserted = ChunkAssembler × Result (Option Bytes)

abbrev pub retained_of : ChunkAssembler → ℕ
retained_of a = sum_of (λ t. t.bytes) a.transfers

-- From the retained budget on; `t` is the entry of `key`, or the new one that `or_insert_with` makes.
unfoldable pub store : ChunkAssembler → String → Transfer → ℕ → ℕ → Bytes → Inserted
store a key t index total bytes =
    if ltb (max_retained_bytes - retained_of a) (length bytes)
    then (a, err "Chunk assembly exceeds retained byte budget")
    else let t' = record t { bytes = t.bytes + length bytes; chunks = put index bytes t.chunks } in
      let stored = put_entry key t' a.transfers in
      if not (length t'.chunks == total)
      then (record a { transfers = stored }, ok none)
      else (record a { transfers = drop_entry key stored }, ok (some (values t'.chunks)))

-- The branch where the map has the key.
unfoldable pub join_transfer :
    ChunkAssembler → String → Transfer → String → ℕ → ℕ → Bytes → ℕ → Inserted
unfolding bytes_eq
join_transfer a key t schema index total bytes now =
    if leb t.deadline now
    then (a, err "Chunk assembly deadline expired")
    else if not (str_eq t.schema schema)
    then (a, err "Inconsistent chunk schema")
    else if not (t.total == total)
    then (a, err "Inconsistent chunk count")
    else elim (get index t.chunks) [
      | some previous ↦
          if bytes_eq previous bytes then (a, ok none) else (a, err "Conflicting duplicate chunk")
      | none ↦
          if ltb (max_transfer_bytes - t.bytes) (length bytes)
          then (a, err "Chunk transfer exceeds byte budget")
          else store a key t index total bytes
    ]

-- The branch where it has not.
unfoldable pub begin_transfer : ChunkAssembler → String → String → ℕ → ℕ → Bytes → ℕ → Inserted
begin_transfer a key schema index total bytes now =
    if leb max_transfers (length a.transfers) || ltb max_transfer_bytes (length bytes)
    then (a, err "Chunk transfer exceeds resource budget")
    else store a key
        (record {
          schema = schema;
          total = total;
          chunks = [];
          bytes = 0;
          deadline = now + transfer_ttl;
        })
        index total bytes

unfoldable pub insert_checked : ChunkAssembler → String → String → ℕ → ℕ → Bytes → ℕ → Inserted
unfolding join_transfer begin_transfer
insert_checked a key schema index total bytes now =
    if total == 0 || ltb max_chunks total || index == 0 || ltb total index
    then (a, err "Invalid chunk count or index")
    else elim (lookup key a.transfers) [
      | some t ↦ join_transfer a key t schema index total bytes now
      | none ↦ begin_transfer a key schema index total bytes now
    ]

-- An error discards the transfer.
unfoldable pub settle : String → Inserted → Inserted
unfolding remove
settle key (a, ok r) = (a, ok r)
settle key (a, err e) = (remove a key, err e)

unfoldable pub insert : ChunkAssembler → String → String → ℕ → ℕ → Bytes → ℕ → Inserted
unfolding insert_checked settle
insert a key schema index total bytes now =
    settle key (insert_checked a key schema index total bytes now)
